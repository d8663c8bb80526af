-- ===== src/Value.antt =====
-- What arrives from the network or from a renderer: a JavaScript value of unknown shape.
pub mod Numeric
use remote_controll_app.Prelude.{
  ℕ, Bool, true, false, Option, none, some, List, if◌then◌else◌, leb, length, take,
}
use remote_controll_app.Text.{Str, str_beq, trim}
use Numeric.{Number}

mutual
  pub data Value : Type 0 where
    undefined null : Value
    boolean : Bool → Value
    number : Number → Value
    string : Str → Value
    array : Items → Value
    object : Fields → Value
    bytes : List ℕ → Value

  pub data Items : Type 0 where
    nil : Items
    cons : Value → Items → Items

  pub data Fields : Type 0 where
    end : Fields
    field : Str → Value → Fields → Fields

-- The own property of an object that the program reads; `undefined` where there is none.
unfoldable pub lookup_field : Str → Fields → Value
lookup_field k end = undefined
lookup_field k (field j v fs) = let rest = lookup_field k fs in if str_beq j k then v else rest

-- `isRecord`, handing on the fields: no null, no array. A `Uint8Array` has none of the fields that
-- the program reads.
unfoldable pub as_record : Value → Option Fields
as_record (object fs) = some fs
as_record (bytes bs) = some end
as_record _ = none

-- `payload.name` on a record, which the callers have checked.
abbrev pub get : Fields → Str → Value
get fs k = lookup_field k fs

-- `payload?.name`
unfoldable pub get_optional : Value → Str → Value
unfolding lookup_field
get_optional (object fs) k = lookup_field k fs
get_optional _ k = undefined

abbrev pub as_string : Value → Option Str
as_string (string s) = some s
as_string _ = none

abbrev pub as_boolean : Value → Option Bool
as_boolean (boolean b) = some b
as_boolean _ = none
