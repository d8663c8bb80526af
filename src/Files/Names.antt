-- ===== src/Files/Names.antt =====
-- apps/desktop/src/main/fileTransfer.ts: names of received files. `normalize("NFKC")`, `toLowerCase`,
-- and `basename`, `extname` and `join` of node:path are parameters.
pub mod Laws
use remote_controll_app.Prelude.{
  ℕ, zero, suc, ◌+◌, ◌-◌, ◌/◌, ◌%◌, ◌≤◌, ◌≡◌, refl, Bool, true, false, not, ◌&&◌, ◌||◌, Option,
  none, some, List, [], ◌∷◌, ◌++◌, map, arith, if◌then◌else◌, leb, nat_beq, length, take, all, any,
  Bool-cases, inl, inr, length-take-le,
}
use remote_controll_app.Files.{Outcome, came, threw}
use remote_controll_app.Text.{
  Str, lit, str_beq, is_empty, is_space, trim, trim_start, trim_end, split, split_head, split_tail,
}

-- `.replace(/\\/g, "/")`
unfoldable pub slashes : Str → Str
slashes s = map (λ c. if nat_beq c b'\\' then b'/' else c) s

-- `[<>:"/\\|?*\u0000-\u001f]`
unfoldable pub is_forbidden : ℕ → Bool
is_forbidden c =
    leb c 0x1f
    || nat_beq c b'<'
    || nat_beq c b'>'
    || nat_beq c b':'
    || nat_beq c b'"'
    || nat_beq c b'/'
    || nat_beq c b'\\'
    || nat_beq c b'|'
    || nat_beq c b'?'
    || nat_beq c b'*'

unfoldable pub replace_forbidden : Str → Str
unfolding is_forbidden
replace_forbidden [] = []
replace_forbidden (c ∷ s) = (if is_forbidden c then b'_' else c) ∷ replace_forbidden s

abbrev pub starts_with_space : Str → Bool
starts_with_space [] = false
starts_with_space (c ∷ s) = is_space c

-- `.replace(/\s+/g, " ")`: the last of a run of white space becomes the one space.
unfoldable pub collapse_spaces : Str → Str
unfolding is_space
collapse_spaces [] = []
collapse_spaces (c ∷ s) =
    let rest = collapse_spaces s in
    if is_space c then if starts_with_space s then rest else b' ' ∷ rest else c ∷ rest

-- `.replace(/[. ]+$/g, "")`
unfoldable pub strip_end : Str → Str
strip_end [] = []
strip_end (c ∷ s) =
    let rest = strip_end s in
    if is_empty rest && (nat_beq c b'.' || nat_beq c b' ') then [] else c ∷ rest

-- `.includes("..")`
unfoldable pub has_dots : Str → Bool
has_dots [] = false
has_dots (c ∷ []) = false
has_dots (c ∷ d ∷ s) = (nat_beq c b'.' && nat_beq d b'.') || has_dots (d ∷ s)

-- `(com|lpt)[1-9]`, after the three letters.
abbrev pub is_port_digit : Str → Bool
is_port_digit (c ∷ []) = leb b'1' c && leb c b'9'
is_port_digit _ = false

unfoldable pub is_port : Str → Bool
is_port (a ∷ b ∷ c ∷ rest) =
    (str_beq (a ∷ b ∷ c ∷ []) (lit "com") || str_beq (a ∷ b ∷ c ∷ []) (lit "lpt"))
    && is_port_digit rest
is_port _ = false

unfoldable pub is_reserved_stem : Str → Bool
is_reserved_stem stem =
    str_beq stem (lit "con")
    || str_beq stem (lit "prn")
    || str_beq stem (lit "aux")
    || str_beq stem (lit "nul")
    || is_port stem

abbrev pub fallback_name : Str
fallback_name = lit "remote-control-file.bin"

-- `segment === "." || segment === ".."`
abbrev pub is_traversal : Str → Bool
is_traversal segment = str_beq segment (lit ".") || str_beq segment (lit "..")

module _ (normalize lower basename : Str → Str) where
  -- `isReservedWindowsFileName`
  unfoldable pub is_reserved_windows_file_name : Str → Bool
  is_reserved_windows_file_name name =
      let stem = lower (split_head b'.' name) in is_empty stem || is_reserved_stem stem

  unfoldable pub clean : Str → Str
  unfolding replace_forbidden collapse_spaces strip_end
  clean normalized = strip_end (trim (collapse_spaces (replace_forbidden (basename normalized))))

  -- The end of `sanitizeFileName`, on the cleaned name.
  unfoldable pub accept_name : Str → Str
  unfolding has_dots is_reserved_windows_file_name
  accept_name cleaned =
      if is_empty cleaned
        || is_traversal cleaned
        || has_dots cleaned
        || is_reserved_windows_file_name cleaned
      then fallback_name
      else take 180 cleaned

  unfoldable pub sanitize_file_name : Str → Str
  unfolding slashes clean accept_name
  sanitize_file_name name =
      let normalized = slashes (normalize name) in
      if any is_traversal (split b'/' normalized)
      then fallback_name
      else accept_name (clean normalized)

-- `${index}` for an index below 1000.
unfoldable pub decimal : ℕ → Str
decimal n =
    if leb n 9
    then (b'0' + n) ∷ []
    else if leb n 99
    then (b'0' + n / 10) ∷ (b'0' + n % 10) ∷ []
    else (b'0' + n / 100) ∷ (b'0' + n / 10 % 10) ∷ (b'0' + n % 10) ∷ []

module _ (extname : Str → Str) (join : Str → Str → Str) where
  -- `fileName.slice(0, -extension.length)` where the extension is its end.
  abbrev pub base_name : Str → Str → Str
  base_name extension file_name =
      if is_empty extension then file_name else take (length file_name - length extension) file_name

  unfoldable pub candidate : Str → Str → ℕ → Str
  unfolding decimal
  candidate directory file_name zero = join directory file_name
  candidate directory file_name (suc n) =
      let extension = extname file_name in
      join directory
        (base_name extension file_name ++ lit " (" ++ decimal (suc n) ++ lit ")" ++ extension)

  -- The loop from an index on; `creates` tells for which paths the exclusive write succeeds.
  unfoldable pub try_paths : (Str → Bool) → Str → Str → ℕ → ℕ → Option Str
  unfolding candidate
  try_paths creates directory file_name index zero = none
  try_paths creates directory file_name index (suc left) =
      let rest = try_paths creates directory file_name (suc index) left in
      if creates (candidate directory file_name index)
      then some (candidate directory file_name index)
      else rest

  -- `createUniqueFilePath`, `none` where it throws.
  unfoldable pub create_unique_file_path : (Str → Bool) → Str → Str → Option Str
  unfolding try_paths
  create_unique_file_path creates directory file_name = try_paths creates directory file_name 0 1000

-- What the start of a transfer does with the name: `directory` is what reading the settings and
-- `mkdir` come back with.
abbrev pub created : Str → Option Str → Outcome Str
created file_name none = threw (lit "Could not allocate file path for " ++ file_name)
created file_name (some path) = came path

module _ (normalize lower basename extname : Str → Str) (join : Str → Str → Str)
    (creates : Str → Bool) where
  abbrev pub allocate : Outcome Str → Str → Outcome Str
  allocate (threw reason) name = threw reason
  allocate (came directory) name =
      let safe_name = sanitize_file_name normalize lower basename name in
      created safe_name (create_unique_file_path extname join creates directory safe_name)
