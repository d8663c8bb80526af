-- ===== src/Signaling/Payloads.antt =====
-- The sanitizers of apps/server/src/signaling/signaling.gateway.ts, over values of unknown shape,
-- and the payload types of packages/shared/src/index.ts that they return.
pub mod Bounds
use remote_controll_app.Prelude.{
  ℕ, Bool, true, false, not, ◌&&◌, ◌||◌, Option, none, some, [], ◌∷◌, if◌then◌else◌, leb, length,
  take, all,
}
use remote_controll_app.Text.{Str, lit, str_beq, trim, is_empty, is_word}
use remote_controll_app.Value.{
  Value, undefined, null, number, string, Fields, as_record, lookup_field, as_string,
}
use remote_controll_app.Value.Numeric.{whole_within}
use remote_controll_app.Sessions.{Role, host, viewer}

pub record JoinPayload : Type 0 where
  pub session_id : Str
  pub role : Role
  pub display_name : Option Str
  pub password : Option Str

pub record ShutdownRequest : Type 0 where
  pub session_id : Str
  pub reason : Str

pub data DescriptionType : Type 0 where
  answer offer pranswer rollback : DescriptionType

pub record DescriptionPayload : Type 0 where
  pub session_id : Str
  pub target_client_id : Option Str
  pub type : DescriptionType
  pub sdp : Option Str

-- A property that may be left out, `null` or there.
pub data Nullable {ℓ} (A : Type ℓ) : Type ℓ where
  omitted is_null : Nullable A
  given : A → Nullable A

pub record CandidatePayload : Type 0 where
  pub session_id : Str
  pub target_client_id : Option Str
  pub candidate : Str
  pub sdp_mid : Nullable Str
  pub sdp_m_line_index : Nullable ℕ
  pub username_fragment : Nullable Str

-- `/^[A-Za-z0-9._-]{1,64}$/`
unfoldable pub is_session_id : Str → Bool
unfolding is_word
is_session_id s = all is_word s && leb 1 (length s) && leb (length s) 64

unfoldable pub sanitize_session_id : Value → Option Str
unfolding is_session_id
sanitize_session_id (string s) = if is_session_id (trim s) then some (trim s) else none
sanitize_session_id _ = none

unfoldable pub sanitize_optional_string : ℕ → Value → Option Str
sanitize_optional_string max (string s) = if leb (length (trim s)) max then some (trim s) else none
sanitize_optional_string max _ = none

unfoldable pub sanitize_sdp : ℕ → Value → Option Str
sanitize_sdp max (string s) = if leb (length s) max then some s else none
sanitize_sdp max _ = none

abbrev pub or_omitted {ℓ} : {A : Type ℓ} → Option A → Nullable A
or_omitted none = omitted
or_omitted (some a) = given a

unfoldable pub sanitize_nullable_string : ℕ → Value → Nullable Str
unfolding sanitize_optional_string
sanitize_nullable_string max null = is_null
sanitize_nullable_string max v = or_omitted (sanitize_optional_string max v)

unfoldable pub sanitize_nullable_integer : ℕ → ℕ → Value → Nullable ℕ
unfolding whole_within
sanitize_nullable_integer lo hi null = is_null
sanitize_nullable_integer lo hi (number n) = or_omitted (whole_within lo hi n)
sanitize_nullable_integer lo hi _ = omitted

-- A spread of `{ displayName }` only where the text is not empty: `...(x ? { x } : {})`.
abbrev pub non_empty : Option Str → Option Str
non_empty none = none
non_empty (some []) = none
non_empty (some (c ∷ s)) = some (c ∷ s)

abbrev pub default_reason : Str
default_reason = lit "Host is shutting down"

unfoldable pub sanitize_shutdown_reason : Option Str → Str
sanitize_shutdown_reason none = default_reason
sanitize_shutdown_reason (some s) = if is_empty (trim s) then default_reason else take 160 (trim s)

-- `role !== "host" && role !== "viewer"` refuses.
unfoldable pub read_role : Value → Option Role
read_role (string s) =
    if str_beq s (lit "host")
    then some host
    else if str_beq s (lit "viewer")
    then some viewer
    else none
read_role _ = none

-- `isRtcDescriptionType`
unfoldable pub read_description_type : Value → Option DescriptionType
read_description_type (string s) =
    if str_beq s (lit "answer")
    then some answer
    else if str_beq s (lit "offer")
    then some offer
    else if str_beq s (lit "pranswer")
    then some pranswer
    else if str_beq s (lit "rollback")
    then some rollback
    else none
read_description_type _ = none

infixl 5 ◌>>=◌
abbrev pub ◌>>=◌ {ℓ κ} : {A : Type ℓ} {B : Type κ} → Option A → (A → Option B) → Option B
none >>= k = none
some a >>= k = k a

unfoldable pub sanitize_join_payload : Value → Option JoinPayload
sanitize_join_payload payload = do
  fields ← as_record payload
  session_id ← sanitize_session_id (lookup_field (lit "sessionId") fields)
  role ← read_role (lookup_field (lit "role") fields)
  some (record {
    session_id = session_id;
    role = role;
    display_name =
        non_empty (sanitize_optional_string 80 (lookup_field (lit "displayName") fields));
    password = sanitize_optional_string 256 (lookup_field (lit "password") fields);
  })

unfoldable pub sanitize_shutdown_request : Value → Option ShutdownRequest
sanitize_shutdown_request payload = do
  fields ← as_record payload
  session_id ← sanitize_session_id (lookup_field (lit "sessionId") fields)
  some (record {
    session_id = session_id;
    reason = sanitize_shutdown_reason (as_string (lookup_field (lit "reason") fields));
  })

unfoldable pub sanitize_description_payload : Value → Option DescriptionPayload
sanitize_description_payload payload = do
  fields ← as_record payload
  description ← as_record (lookup_field (lit "description") fields)
  session_id ← sanitize_session_id (lookup_field (lit "sessionId") fields)
  type ← read_description_type (lookup_field (lit "type") description)
  some (record {
    session_id = session_id;
    target_client_id =
        non_empty (sanitize_optional_string 128 (lookup_field (lit "targetClientId") fields));
    type = type;
    sdp = sanitize_sdp 1000000 (lookup_field (lit "sdp") description);
  })

unfoldable pub sanitize_candidate_payload : Value → Option CandidatePayload
sanitize_candidate_payload payload = do
  fields ← as_record payload
  candidate ← as_record (lookup_field (lit "candidate") fields)
  session_id ← sanitize_session_id (lookup_field (lit "sessionId") fields)
  text ← sanitize_optional_string 4096 (lookup_field (lit "candidate") candidate)
  some (record {
    session_id = session_id;
    target_client_id =
        non_empty (sanitize_optional_string 128 (lookup_field (lit "targetClientId") fields));
    candidate = text;
    sdp_mid = sanitize_nullable_string 64 (lookup_field (lit "sdpMid") candidate);
    sdp_m_line_index =
        sanitize_nullable_integer 0 255 (lookup_field (lit "sdpMLineIndex") candidate);
    username_fragment =
        sanitize_nullable_string 256 (lookup_field (lit "usernameFragment") candidate);
  })
