-- ===== src/Text/Laws.antt =====
-- Trimming and splitting.
use mathlib.Core.Path.{ap₂}
use remote_controll_app.Prelude.{
  ℕ, ◌≤◌, ◌≡◌, refl, false, List, [], ◌∷◌, arith, length, nat_beq, nat_beq_iff, Bool-cases, inl,
  inr, ap, sym, ◌∙◌,
}
use remote_controll_app.Text.{
  Str, is_space, trim_start, trim_end, trim, split_head, split_tail, split, join,
}

length-trim_start : (s : Str) → length (trim_start s) ≤ length s
unfolding trim_start
length-trim_start [] = omega arith
length-trim_start (c ∷ s) = ground (arith, length-trim_start s)

length-trim_end : (s : Str) → length (trim_end s) ≤ length s
unfolding trim_end
length-trim_end [] = omega arith
length-trim_end (c ∷ s) = ground (arith, length-trim_end s)

pub length-trim-le : (s : Str) → length (trim s) ≤ length s
unfolding trim
length-trim-le s = omega (arith, length-trim_start s, length-trim_end (trim_start s))

-- The first code unit is no white space.
abbrev pub StartsClean : Str → Type 0
StartsClean [] = Unit
StartsClean (c ∷ s) = is_space c ≡ false

trim_start-clean : (s : Str) → StartsClean (trim_start s)
unfolding trim_start
trim_start-clean [] = tt
trim_start-clean (c ∷ s) = ground (arith, trim_start-clean s)

trim_end-clean : (s : Str) → StartsClean s → StartsClean (trim_end s)
unfolding trim_end
trim_end-clean [] h = tt
trim_end-clean (c ∷ s) h = ground arith

trim_start_of_clean : (s : Str) → StartsClean s → trim_start s ≡ s
unfolding trim_start
trim_start_of_clean [] h = refl
trim_start_of_clean (c ∷ s) h = rw h

trim_end_idempotent : (s : Str) → trim_end (trim_end s) ≡ trim_end s
unfolding trim_end
trim_end_idempotent [] = refl
trim_end_idempotent (c ∷ s) = ground (arith, trim_end_idempotent s)

-- What is trimmed once is trimmed.
pub trim-trim : (s : Str) → trim (trim s) ≡ trim s
unfolding trim
trim-trim s =
    rw (trim_start_of_clean (trim_end (trim_start s)) (trim_end-clean _ (trim_start-clean s)))
      (trim_end_idempotent (trim_start s))

join-cons :
    (sep c : ℕ) (h : Str) (rest : List Str) → join sep ((c ∷ h) ∷ rest) ≡ c ∷ join sep (h ∷ rest)
unfolding join
join-cons sep c h [] = refl
join-cons sep c h (t ∷ rest) = refl

join-one : (sep : ℕ) (s : Str) → join sep (s ∷ []) ≡ s
unfolding join
join-one sep s = refl

join-nil-cons :
    (sep : ℕ) (h : Str) (rest : List Str) → join sep ([] ∷ h ∷ rest) ≡ sep ∷ join sep (h ∷ rest)
unfolding join
join-nil-cons sep h rest = refl

-- The pieces of a string, joined by the separator, give the string back.
pub join-split : (sep : ℕ) (s : Str) → join sep (split sep s) ≡ s
unfolding split
join-split sep [] = join-one sep []
join-split sep (c ∷ s) = elim (Bool-cases (nat_beq c sep)) [
  | inl hit ↦ rw hit (
      join-nil-cons sep (split_head sep s) (split_tail sep s)
      ∙ ap₂ ◌∷◌ (sym ((nat_beq_iff c sep).0 hit)) (join-split sep s))
  | inr miss ↦
      rw (miss, join-cons sep c (split_head sep s) (split_tail sep s))
        (ap (◌∷◌ c) (join-split sep s))
]
