-- ===== src/Files/Names/Laws.antt =====
-- What the names of received files are, whatever the libraries make of them: the functions of
-- apps/desktop/src/main/fileTransfer.ts.
use remote_controll_app.Prelude.{
  ℕ, zero, suc, ◌+◌, ◌≤◌, ◌<◌, ◌≡◌, refl, Bool, true, false, not, ◌||◌, Option, none, some, [], ◌∷◌,
  arith, nat_beq, length, take, all, any, Bool-cases, inl, inr, length-take-le, subst,
}
use remote_controll_app.Text.{Str, is_empty, trim, trim_start, trim_end, split}
use remote_controll_app.Files.Names.{
  slashes, is_forbidden, replace_forbidden, collapse_spaces, strip_end, has_dots,
  is_reserved_windows_file_name, is_traversal, clean, accept_name, sanitize_file_name,
  fallback_name, candidate, try_paths, create_unique_file_path,
}

-- No character of the text is forbidden.
abbrev pub is_clean : Str → Bool
is_clean = all (λ c. not (is_forbidden c))

clean-replace_forbidden : (s : Str) → is_clean (replace_forbidden s) ≡ true
unfolding replace_forbidden is_forbidden
clean-replace_forbidden [] = refl
clean-replace_forbidden (c ∷ s) = ground (arith, clean-replace_forbidden s)

space_allowed : is_forbidden b' ' ≡ false
unfolding is_forbidden
space_allowed = refl

clean-collapse_spaces : (s : Str) → is_clean s ≡ true → is_clean (collapse_spaces s) ≡ true
unfolding collapse_spaces
clean-collapse_spaces [] h = refl
clean-collapse_spaces (c ∷ s) h = ground (arith, clean-collapse_spaces s, space_allowed)

clean-trim_start : (s : Str) → is_clean s ≡ true → is_clean (trim_start s) ≡ true
unfolding trim_start
clean-trim_start [] h = refl
clean-trim_start (c ∷ s) h = ground (arith, clean-trim_start s)

clean-trim_end : (s : Str) → is_clean s ≡ true → is_clean (trim_end s) ≡ true
unfolding trim_end
clean-trim_end [] h = refl
clean-trim_end (c ∷ s) h = ground (arith, clean-trim_end s)

clean-strip_end : (s : Str) → is_clean s ≡ true → is_clean (strip_end s) ≡ true
unfolding strip_end
clean-strip_end [] h = refl
clean-strip_end (c ∷ s) h = ground (arith, clean-strip_end s)

clean-take : (n : ℕ) (s : Str) → is_clean s ≡ true → is_clean (take n s) ≡ true
clean-take zero s h = refl
clean-take (suc n) [] h = refl
clean-take (suc n) (c ∷ s) h = ground (arith, clean-take n s)

-- A prefix has no dots side by side if the whole has none.
has_dots-take : (n : ℕ) (s : Str) → has_dots s ≡ false → has_dots (take n s) ≡ false
unfolding has_dots
has_dots-take zero s h = refl
has_dots-take (suc n) [] h = refl
has_dots-take (suc zero) (c ∷ s) h = refl
has_dots-take (suc (suc n)) (c ∷ []) h = refl
has_dots-take (suc (suc n)) (c ∷ d ∷ s) h = ground (arith, has_dots-take (suc n) (d ∷ s))

-- A name that can be written into a folder.
pub record IsSafeName (s : Str) : Type 0 where
  pub used : is_empty s ≡ false
  pub short : length s ≤ 180
  pub allowed : is_clean s ≡ true
  pub dots : has_dots s ≡ false

fallback-IsSafeName : IsSafeName fallback_name
unfolding has_dots is_forbidden
fallback-IsSafeName = record { used = refl; short = omega arith; allowed = refl; dots = refl }

take-used : (n : ℕ) (s : Str) → is_empty s ≡ false → is_empty (take (suc n) s) ≡ false
take-used n [] h = h
take-used n (c ∷ s) h = refl

module _ (normalize lower basename : Str → Str) where
  clean-clean : (s : Str) → is_clean (clean normalize lower basename s) ≡ true
  unfolding clean trim
  clean-clean s =
      let spaced = collapse_spaces (replace_forbidden (basename s)) in
      clean-strip_end (trim_end (trim_start spaced)) (
        clean-trim_end (trim_start spaced) (
          clean-trim_start spaced (
            clean-collapse_spaces (replace_forbidden (basename s))
              (clean-replace_forbidden (basename s)))))

  accept_name-IsSafeName :
      (s : Str) → is_clean s ≡ true → IsSafeName (accept_name normalize lower basename s)
  unfolding accept_name
  accept_name-IsSafeName s h =
      elim (Bool-cases (
        is_empty s
        || is_traversal s
        || has_dots s
        || is_reserved_windows_file_name normalize lower basename s)) [
          | inl y ↦ rw y fallback-IsSafeName
          | inr n ↦ rw n (record {
            used = take-used 179 s (ground arith);
            short = length-take-le 180 s;
            allowed = clean-take 180 s h;
            dots = has_dots-take 180 s (ground arith);
          })
        ]

  -- Whatever the name that was sent, and whatever Unicode normalization, lower case and `basename`
  -- make of it: the name is not empty, has at most 180 code units, none of them a separator, a
  -- control character or one that Windows forbids, and no two dots side by side.
  pub sanitize_file_name-IsSafeName :
      (name : Str) → IsSafeName (sanitize_file_name normalize lower basename name)
  unfolding sanitize_file_name
  sanitize_file_name-IsSafeName name =
      elim (Bool-cases (any is_traversal (split b'/' (slashes (normalize name))))) [
        | inl y ↦ rw y fallback-IsSafeName
        | inr n ↦ rw n (accept_name-IsSafeName _ (clean-clean (slashes (normalize name))))
      ]

-- The first of the candidates from `lo` to before `hi` that could be created, or none could.
abbrev pub IsFirst : (ℕ → Str) → (Str → Bool) → ℕ → ℕ → Option Str → Type 0
IsFirst path creates lo hi none = (j : ℕ) → lo ≤ j → j < hi → creates (path j) ≡ false
IsFirst path creates lo hi (some p) =
    (i : ℕ) × (lo ≤ i)
    × (i < hi)
    × (p ≡ path i)
    × (creates p ≡ true)
    × ((j : ℕ) → lo ≤ j → j < i → creates (path j) ≡ false)

IsFirst-next :
    (path : ℕ → Str) (creates : Str → Bool) (lo hi : ℕ) (o : Option Str)
    → creates (path lo) ≡ false
    → IsFirst path creates (suc lo) hi o
    → IsFirst path creates lo hi o
IsFirst-next path creates lo hi none h rest = λ j le lt. elim (Bool-cases (nat_beq j lo)) [
  | inl y ↦ let same : j ≡ lo = ground arith in rw same h
  | inr n ↦ rest j (ground arith) lt
]
IsFirst-next path creates lo hi (some p) h (i, le, lt, at, made, before) = (
  i,
  omega arith,
  lt,
  at,
  made,
  λ j from to. elim (Bool-cases (nat_beq j lo)) [
    | inl y ↦ let same : j ≡ lo = ground arith in rw same h
    | inr n ↦ before j (ground arith) to
  ],
)

module _ (extname : Str → Str) (join : Str → Str → Str) (creates : Str → Bool)
    (directory file_name : Str) where
  try_paths-IsFirst :
      (index left : ℕ)
      → IsFirst
          (candidate extname join directory file_name)
          creates
          index
          (index + left)
          (try_paths extname join creates directory file_name index left)
  unfolding try_paths
  try_paths-IsFirst index zero = λ j le lt. ground arith
  try_paths-IsFirst index (suc left) =
      elim (Bool-cases (creates (candidate extname join directory file_name index))) [
        | inl y ↦ rw y (index, omega arith, omega arith, refl, y, λ j le lt. ground arith)
        | inr n ↦ rw n (
            IsFirst-next _ creates index (index + suc left) _ n (
              subst
                (λ hi.
                  IsFirst (candidate extname join directory file_name) creates (suc index) hi
                    (try_paths extname join creates directory file_name (suc index) left))
                (omega arith) (try_paths-IsFirst (suc index) left)))
      ]

  -- The path is the first of the thousand candidates that could be created, where there is one, and
  -- the function throws where there is none.
  pub create_unique_file_path-IsFirst :
      IsFirst
        (candidate extname join directory file_name)
        creates
        0
        1000
        (create_unique_file_path extname join creates directory file_name)
  unfolding create_unique_file_path
  create_unique_file_path-IsFirst = try_paths-IsFirst 0 1000
