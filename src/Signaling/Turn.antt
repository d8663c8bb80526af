-- ===== src/Signaling/Turn.antt =====
-- apps/server/src/turn/turn.service.ts: the ICE servers that the environment names.
use remote_controll_app.Prelude.{
  ◌≡◌, false, not, Option, none, some, List, [], ◌∷◌, map, arith, keep, All,
}
use remote_controll_app.Text.{Str, lit, split, trim, is_empty}
use remote_controll_app.Text.Laws.{trim-trim}

-- `TurnCredentials`
pub record TurnCredentials : Type 0 where
  pub urls : List Str
  pub username : Option Str
  pub credential : Option Str

-- The variables of `process.env` that the service reads.
pub record TurnEnv : Type 0 where
  pub stun_urls : Option Str
  pub turn_urls : Option Str
  pub turn_username : Option Str
  pub turn_credential : Option Str

-- `parseList`: an unset or empty variable gives the fallback.
unfoldable pub parse_list : Option Str → List Str → List Str
parse_list none fallback = fallback
parse_list (some []) fallback = fallback
parse_list (some (c ∷ s)) fallback =
    keep (λ item. not (is_empty item)) (map trim (split b',' (c ∷ s)))

abbrev pub stun_fallback : List Str
stun_fallback = lit "stun:stun.l.google.com:19302" ∷ []

turn_servers : List Str → TurnEnv → List TurnCredentials
turn_servers [] env = []
turn_servers (url ∷ urls) env =
    record { urls = url ∷ urls; username = env.turn_username; credential = env.turn_credential }
    ∷ []

unfoldable pub get_ice_config : TurnEnv → List TurnCredentials
unfolding parse_list turn_servers
get_ice_config env =
    record { urls = parse_list env.stun_urls stun_fallback; username = none; credential = none }
    ∷ turn_servers (parse_list env.turn_urls []) env

-- A usable entry: not empty, and trimmed.
abbrev pub IsEntry : Str → Type 0
IsEntry s = (is_empty s ≡ false) × (trim s ≡ s)

kept_entries :
    (parts : List Str) → All IsEntry (keep (λ item. not (is_empty item)) (map trim parts))
kept_entries [] = tt
kept_entries (s ∷ parts) = ground (arith, kept_entries parts, trim-trim s)

-- If each entry of the fallback is trimmed and not empty, so is each entry that `parseList` gives.
pub parse_list-entries :
    (value : Option Str) (fallback : List Str)
    → All IsEntry fallback
    → All IsEntry (parse_list value fallback)
unfolding parse_list
parse_list-entries none fallback h = h
parse_list-entries (some []) fallback h = h
parse_list-entries (some (c ∷ s)) fallback h = kept_entries (split b',' (c ∷ s))
