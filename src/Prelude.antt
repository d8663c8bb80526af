-- ===== src/Prelude.antt =====
-- The names that the other modules share: the libraries', passed on, and those of the children.
mod Tests
mod Lists
pub use Tests.*
pub use Lists.*
pub use Prim.Native.Nat.{ℕ, zero, suc, ◌+◌, ◌-◌, ◌*◌, ◌/◌, ◌%◌, ◌^◌, ◌≤◌, ◌<◌}
pub use mathlib.Core.Path.{◌≡◌, refl, sym, ap, subst, ◌∙◌}
pub use mathlib.Core.Logic.{◌≢◌, ◌↔◌, ◌⊎◌, inl, inr}
pub use mathlib.Core.Bool.{Bool, true, false, not, ◌&&◌, ◌||◌}
pub use mathlib.Core.Option.{Option, none, some}
pub use mathlib.Core.List.{List, [], ◌∷◌, ◌++◌, map, append-nil, append_assoc}
pub use native.Mathlib.Omega.{arith}

-- A function changed at one place.
abbrev pub put {ℓ} : {A : Type ℓ} → ℕ → A → (ℕ → A) → ℕ → A
put a x f b = if nat_beq a b then x else f b

pub put-same {ℓ} : {A : Type ℓ} (a : ℕ) (x : A) (f : ℕ → A) → put a x f a ≡ x
put-same a x f = ground arith

-- A property of every place, but for the one that is written.
pub put-all {ℓ κ} :
    {A : Type ℓ} (P : ℕ → A → Type κ) (a : ℕ) (x : A) (f : ℕ → A)
    → P a x
    → ((b : ℕ) → nat_beq a b ≡ false → P b (f b))
    → (b : ℕ) → P b (put a x f b)
put-all P a x f p all b = elim (Bool-cases (nat_beq a b)) [
  | inl y ↦ rw (y, ← (nat_beq_iff a b).0 y) p
  | inr n ↦ rw n (all b n)
]
