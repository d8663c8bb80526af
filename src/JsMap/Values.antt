-- ===== src/JsMap/Values.antt =====
-- What holds of every value of a map.
use remote_controll_app.Prelude.{◌≡◌, some, [], ◌∷◌, arith, Eq, ◌==◌, Bool-cases, inl, inr, subst}
use remote_controll_app.JsMap.Defs.{JsMap, get, set, delete}

module _ {ℓ κ λ'} {K : Type ℓ} {V : Type κ} ⦃e : Eq K⦄ (P : V → Type λ') where
  abbrev pub AllValues : JsMap K V → Type λ'
  AllValues [] = Unit
  AllValues ((k, v) ∷ m) = P v × AllValues m

  pub AllValues-set : (k : K) (v : V) (m : JsMap K V) → P v → AllValues m → AllValues (set k v m)
  unfolding set
  AllValues-set k v [] p h = (p, tt)
  AllValues-set k v ((j, w) ∷ m) p h = ground (arith, AllValues-set k v m p h.1)

  pub AllValues-get : (k : K) (v : V) (m : JsMap K V) → get k m ≡ some v → AllValues m → P v
  unfolding get
  AllValues-get k v [] g h = cc
  AllValues-get k v ((j, w) ∷ m) g h = elim (Bool-cases (j == k)) [
    | inl hit ↦ let same : w ≡ v = cc (rw hit at g) in subst P same h.0
    | inr miss ↦ AllValues-get k v m (rw miss at g) h.1
  ]

  pub AllValues-delete : (k : K) (m : JsMap K V) → AllValues m → AllValues (delete k m)
  unfolding delete
  AllValues-delete k [] h = tt
  AllValues-delete k ((j, w) ∷ m) h = ground (arith, AllValues-delete k m h.1)
