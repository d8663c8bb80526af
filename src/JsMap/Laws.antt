-- ===== src/JsMap/Laws.antt =====
-- What reading a map gives after a write, and that the keys of a map stay distinct.
use remote_controll_app.Prelude.{
  suc, ◌+◌, ◌≤◌, ◌≡◌, refl, true, false, none, some, [], ◌∷◌, arith, Eq, ◌==◌, if◌then◌else◌,
  length,
}
use remote_controll_app.JsMap.Defs.{JsMap, get, has, set, delete}

module _ {ℓ κ} {K : Type ℓ} {V : Type κ} ⦃e : Eq K⦄ where
  pub get-set :
      (j k : K) (v : V) (m : JsMap K V) → get j (set k v m) ≡ (if k == j then some v else get j m)
  unfolding get set
  get-set j k v [] = refl
  get-set j k v ((i, w) ∷ m) =
      ground (arith, e.beq_iff i k, e.beq_iff i j, e.beq_iff k j, get-set j k v m)

  pub get-delete :
      (j k : K) (m : JsMap K V) → get j (delete k m) ≡ (if k == j then none else get j m)
  unfolding get delete
  get-delete j k [] = ground arith
  get-delete j k ((i, w) ∷ m) =
      ground (arith, e.beq_iff i k, e.beq_iff i j, e.beq_iff k j, get-delete j k m)

  pub has-set :
      (j k : K) (v : V) (m : JsMap K V) → has j (set k v m) ≡ (if k == j then true else has j m)
  unfolding has set
  has-set j k v [] = ground arith
  has-set j k v ((i, w) ∷ m) =
      ground (arith, e.beq_iff i k, e.beq_iff i j, e.beq_iff k j, has-set j k v m)

  pub has-delete :
      (j k : K) (m : JsMap K V) → has j (delete k m) ≡ (if k == j then false else has j m)
  unfolding has delete
  has-delete j k [] = ground arith
  has-delete j k ((i, w) ∷ m) =
      ground (arith, e.beq_iff i k, e.beq_iff i j, e.beq_iff k j, has-delete j k m)

  pub has-get : (k : K) (m : JsMap K V) → has k m ≡ false → get k m ≡ none
  unfolding has get
  has-get k [] h = refl
  has-get k ((j, v) ∷ m) h = ground (arith, has-get k m)

  pub get-has : (k : K) (v : V) (m : JsMap K V) → get k m ≡ some v → has k m ≡ true
  unfolding has get
  get-has k v [] h = cc
  get-has k v ((j, w) ∷ m) h = ground (arith, get-has k v m)

  pub get-none-has : (k : K) (m : JsMap K V) → get k m ≡ none → has k m ≡ false
  unfolding has get
  get-none-has k [] h = refl
  get-none-has k ((j, w) ∷ m) h = ground (arith, get-none-has k m)

  -- No key stands twice.
  abbrev pub Distinct : JsMap K V → Type 0
  Distinct [] = Unit
  Distinct ((k, v) ∷ m) = (has k m ≡ false) × Distinct m

  pub set-Distinct : (k : K) (v : V) (m : JsMap K V) → Distinct m → Distinct (set k v m)
  unfolding set has
  set-Distinct k v [] d = (refl, tt)
  set-Distinct k v ((j, w) ∷ m) (f, d) =
      ground (arith, set-Distinct k v m d, has-set j k v m, e.beq_iff j k, e.beq_iff k j)

  pub delete-Distinct : (k : K) (m : JsMap K V) → Distinct m → Distinct (delete k m)
  unfolding delete
  delete-Distinct k [] d = tt
  delete-Distinct k ((j, w) ∷ m) (f, d) =
      ground (arith, delete-Distinct k m d, has-delete j k m, e.beq_iff k j)

  pub delete-absent : (k : K) (m : JsMap K V) → has k m ≡ false → delete k m ≡ m
  unfolding delete has
  delete-absent k [] h = refl
  delete-absent k ((j, w) ∷ m) h = ground (arith, delete-absent k m)

  pub length-set :
      (k : K) (v : V) (m : JsMap K V)
      → length (set k v m) ≡ (if has k m then length m else suc (length m))
  unfolding set has
  length-set k v [] = refl
  length-set k v ((j, w) ∷ m) = ground (arith, length-set k v m)

  pub length-delete-le : (k : K) (m : JsMap K V) → length (delete k m) ≤ length m
  unfolding delete
  length-delete-le k [] = omega arith
  length-delete-le k ((j, w) ∷ m) = ground (arith, length-delete-le k m)

  pub length-delete :
      (k : K) (m : JsMap K V) → Distinct m → has k m ≡ true → length (delete k m) + 1 ≡ length m
  unfolding delete has
  length-delete k [] d h = cc
  length-delete k ((j, w) ∷ m) (f, d) h =
      ground (arith, length-delete k m d, delete-absent k m, e.beq_iff j k)
