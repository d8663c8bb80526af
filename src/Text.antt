-- ===== src/Text.antt =====
-- JavaScript strings: lists of UTF-16 code units, with the methods that the program calls.
-- `length`, `slice(0, n)` and `+` are `length`, `take n` and `++`.
pub mod Laws
use Prim.Native.Char.{code}
use Prim.Native.String
use Prim.Native.String.{String}
use remote_controll_app.Prelude.{
  ℕ, ◌≡◌, refl, ◌↔◌, Bool, true, false, ◌&&◌, ◌||◌, List, [], ◌∷◌, ◌++◌, arith, Eq, ◌==◌,
  if◌then◌else◌, leb, nat_beq, nat_beq_iff,
}

abbrev pub Str : Type 0
Str = List ℕ

-- A literal of the source. Its characters are ASCII, so each is one code unit.
abbrev pub lit : String → Str
lit String.[] = []
lit (String.◌∷◌ c s) = code c ∷ lit s

-- `a === b`
unfoldable pub str_beq : Str → Str → Bool
str_beq [] [] = true
str_beq [] (_ ∷ _) = false
str_beq (_ ∷ _) [] = false
str_beq (a ∷ s) (b ∷ t) = nat_beq a b && str_beq s t

pub str_beq_iff : (s t : Str) → (str_beq s t ≡ true) ↔ (s ≡ t)
unfolding str_beq
str_beq_iff [] [] = ground arith
str_beq_iff [] (b ∷ t) = ground arith
str_beq_iff (a ∷ s) [] = ground arith
str_beq_iff (a ∷ s) (b ∷ t) = ground (arith, str_beq_iff s t)

instance abbrev pub str_eq : Eq Str
str_eq = record { beq = str_beq; beq_iff = str_beq_iff }

abbrev pub is_empty {ℓ} : {A : Type ℓ} → List A → Bool
is_empty [] = true
is_empty (_ ∷ _) = false

-- The white space and line ends that `trim` takes off.
unfoldable pub is_space : ℕ → Bool
is_space c =
    (leb 9 c && leb c 13)
    || nat_beq c 0x20
    || nat_beq c 0xa0
    || nat_beq c 0x1680
    || (leb 0x2000 c && leb c 0x200a)
    || nat_beq c 0x2028
    || nat_beq c 0x2029
    || nat_beq c 0x202f
    || nat_beq c 0x205f
    || nat_beq c 0x3000
    || nat_beq c 0xfeff

unfoldable pub trim_start : Str → Str
unfolding is_space
trim_start [] = []
trim_start (c ∷ s) = let rest = trim_start s in if is_space c then rest else c ∷ s

unfoldable pub trim_end : Str → Str
unfolding is_space
trim_end [] = []
trim_end (c ∷ s) = let rest = trim_end s in if is_empty rest && is_space c then [] else c ∷ rest

-- `s.trim()`
unfoldable pub trim : Str → Str
unfolding trim_start trim_end
trim s = trim_end (trim_start s)

-- The pieces of `s.split(sep)` for a separator of one code unit: the first, and those after it.
unfoldable pub split_head : ℕ → Str → Str
split_head sep [] = []
split_head sep (c ∷ s) = let rest = split_head sep s in if nat_beq c sep then [] else c ∷ rest

unfoldable pub split_tail : ℕ → Str → List Str
unfolding split_head
split_tail sep [] = []
split_tail sep (c ∷ s) =
    let rest = split_tail sep s in if nat_beq c sep then split_head sep s ∷ rest else rest

unfoldable pub split : ℕ → Str → List Str
unfolding split_head split_tail
split sep s = split_head sep s ∷ split_tail sep s

-- `parts.join(sep)`
unfoldable pub join : ℕ → List Str → Str
join sep [] = []
join sep (s ∷ []) = s
join sep (s ∷ t ∷ rest) = s ++ sep ∷ join sep (t ∷ rest)

unfoldable pub is_digit : ℕ → Bool
is_digit c = leb b'0' c && leb c b'9'

unfoldable pub is_letter : ℕ → Bool
is_letter c = (leb b'A' c && leb c b'Z') || (leb b'a' c && leb c b'z')

-- `[A-Za-z0-9._-]`
unfoldable pub is_word : ℕ → Bool
unfolding is_digit is_letter
is_word c = is_letter c || is_digit c || nat_beq c b'.' || nat_beq c b'_' || nat_beq c b'-'
