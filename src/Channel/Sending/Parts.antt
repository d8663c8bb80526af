-- ===== src/Channel/Sending/Parts.antt =====
-- The parts of a file that `sendFile` of apps/desktop/src/renderer/src/webrtc/RemoteControlClient.ts
-- slices off.
use remote_controll_app.Prelude.{
  ℕ, zero, suc, ◌+◌, ◌≤◌, ◌<◌, ◌≡◌, ◌∙◌, refl, sym, ap, List, [], ◌∷◌, ◌++◌, length, take, drop,
  arith,
}
use remote_controll_app.Channel.Sending.{chunk_size}

-- The parts of a list.
pub take-drop : (n : ℕ) (xs : List ℕ) → take n xs ++ drop n xs ≡ xs
take-drop zero xs = refl
take-drop (suc n) [] = refl
take-drop (suc n) (x ∷ xs) = ap (λ ys. x ∷ ys) (take-drop n xs)

pub drop-take : (n : ℕ) (xs : List ℕ) → drop (length (take n xs)) xs ≡ drop n xs
drop-take zero xs = refl
drop-take (suc n) [] = refl
drop-take (suc n) (x ∷ xs) = drop-take n xs

pub drop_nil : (n : ℕ) → ◌≡◌ {A = List ℕ} (drop n []) []
drop_nil zero = refl
drop_nil (suc n) = refl

pub drop-add : (m n : ℕ) (xs : List ℕ) → drop (m + n) xs ≡ drop n (drop m xs)
drop-add zero n xs = let e : 0 + n ≡ n = omega arith in rw e refl
drop-add (suc m) n [] = drop_nil (suc m + n) ∙ sym (drop_nil n)
drop-add (suc m) n (x ∷ xs) =
    let e : suc m + n ≡ suc (m + n) = omega arith in rw e (drop-add m n xs)

pub drop_all : (n : ℕ) (xs : List ℕ) → length xs ≤ n → drop n xs ≡ []
drop_all zero [] h = refl
drop_all zero (x ∷ xs) h = absurd (omega (arith, h))
drop_all (suc n) [] h = refl
drop_all (suc n) (x ∷ xs) h = drop_all n xs (omega (arith, h))

-- The chunk at an offset is not empty before the end.
pub take_full : (n : ℕ) (xs : List ℕ) → 0 < length xs → 0 < length (take (suc n) xs)
take_full n [] h = h
take_full n (x ∷ xs) h = omega arith

pub length-drop : (n : ℕ) (xs : List ℕ) → n < length xs → 0 < length (drop n xs)
length-drop zero xs h = h
length-drop (suc n) [] h = absurd (omega (arith, h))
length-drop (suc n) (x ∷ xs) h = length-drop n xs (omega (arith, h))

pub chunk_full :
    (offset : ℕ) (file : List ℕ)
    → offset < length file
    → 0 < length (take chunk_size (drop offset file))
chunk_full offset file h = take_full 49151 (drop offset file) (length-drop offset file h)

-- What is left after a chunk.
pub drop-chunk :
    (offset : ℕ) (file : List ℕ)
    → drop offset file
      ≡ take chunk_size (drop offset file)
        ++ drop (offset + length (take chunk_size (drop offset file))) file
drop-chunk offset file =
    sym (take-drop chunk_size (drop offset file))
    ∙ ap (λ ys. take chunk_size (drop offset file) ++ ys)
        (sym (drop-take chunk_size (drop offset file))
          ∙ sym (drop-add offset (length (take chunk_size (drop offset file))) file))
