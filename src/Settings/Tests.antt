-- ===== src/Settings/Tests.antt =====
-- The settings of a host with a toy key function, whose key holds the first unit of the password.
use remote_controll_app.Prelude.{
  ℕ, zero, suc, ◌≡◌, ◌⊎◌, ◌↔◌, refl, true, false, not, Option, none, some, List, [], ◌∷◌, ◌+◌, ◌-◌,
  map, nat_beq, all, length, arith, ap,
}
use remote_controll_app.Text.{
  Str, lit, str_beq, str_beq_iff, is_empty, trim, trim_start, trim_end, is_space,
}
use remote_controll_app.Value.{
  Fields, object, field, end, string, as_record, as_string, lookup_field,
}
use remote_controll_app.Settings.{
  Crypto, IsLawful, Settings, fields_of, no_settings, update_host_settings, verify_host_password,
  verify_settings, read_settings, get_host_settings, patch_host_settings,
}
use remote_controll_app.Settings.Laws.{verify-update, verify-update_other, handlers_guarded}

settings : Unit {0}
unfolding str_beq trim trim_start trim_end is_space as_record lookup_field
settings = tt

-- A key of `n` numbers: the first unit of the password, and zeros.
abbrev pad : ℕ → List ℕ
pad zero = []
pad (suc n) = 0 ∷ pad n

abbrev key : Str → ℕ → List ℕ
key password zero = []
key [] (suc n) = 0 ∷ pad n
key (c ∷ password) (suc n) = c ∷ pad n

length-pad : (n : ℕ) → length (pad n) ≡ n
length-pad zero = refl
length-pad (suc n) = ap (λ (k : ℕ). suc k) (length-pad n)

length-key : (password : Str) (n : ℕ) → length (key password n) ≡ n
length-key password zero = refl
length-key [] (suc n) = ap (λ (k : ℕ). suc k) (length-pad n)
length-key (c ∷ password) (suc n) = ap (λ (k : ℕ). suc k) (length-pad n)

-- An encoding without `$`, which is the number 36.
abbrev shift : List ℕ → Str
shift bytes = map (λ n. n + 37) bytes

abbrev unshift : Str → List ℕ
unshift s = map (λ c. c - 37) s

unshift-shift : (bytes : List ℕ) → unshift (shift bytes) ≡ bytes
unshift-shift [] = refl
unshift-shift (n ∷ bytes) = ground (arith, unshift-shift bytes)

plain-shift : (bytes : List ℕ) → all (λ c. not (nat_beq c b'$')) (shift bytes) ≡ true
plain-shift [] = refl
plain-shift (n ∷ bytes) = ground (arith, plain-shift bytes)

full-shift : (bytes : List ℕ) → is_empty bytes ≡ false → is_empty (shift bytes) ≡ false
full-shift [] h = h
full-shift (n ∷ bytes) h = refl

abbrev toy : Crypto
toy = record {
  scrypt = λ password salt n. key password n;
  encode = shift;
  decode = unshift;
  utf8 = λ s. s;
  timing_safe_equal = str_beq;
}

toy-IsLawful : IsLawful toy
toy-IsLawful = record {
  decode-encode = unshift-shift;
  encode_plain = plain-shift;
  encode_full = full-shift;
  length-scrypt = λ password salt n. length-key password n;
  compares = λ a b e. str_beq_iff a b;
}

-- The file holds the settings as they are.
abbrev parse : Settings → Option Settings
parse s = some s

abbrev keep_as_is : Settings → Settings
keep_as_is s = s

abbrev payload : Fields
payload = field (lit "accessPassword") (string (lit "  secret  ")) end

abbrev old_file : Option Settings
old_file = some (record no_settings { access_password = some (lit "legacy") })

given_test : lookup_field (lit "accessPassword") payload ≡ string (lit "  secret  ")
unfolding settings
given_test = refl

filled_test : is_empty (trim (lit "  secret  ")) ≡ false
unfolding settings
filled_test = refl

absent_test :
    as_string (lookup_field (lit "accessPassword") (fields_of (as_record (object end)))) ≡ none
unfolding settings
absent_test = refl

verify-update_example :
    (verify_host_password toy parse keep_as_is
        (some (lit "secret"))
        (update_host_settings toy parse keep_as_is (7 ∷ []) (object payload) old_file).0
      ≡ true)
    ↔ (key (lit "secret") 32 ≡ key (trim (lit "  secret  ")) 32)
verify-update_example =
    verify-update toy parse keep_as_is toy-IsLawful (7 ∷ []) payload old_file (lit "  secret  ")
      (lit "secret") (λ s. refl) refl given_test filled_test

-- The password of the old file is asked for no more.
verify-update_other_example :
    verify_host_password toy parse keep_as_is none
      (update_host_settings toy parse keep_as_is (7 ∷ []) (object end) old_file).0
    ≡ verify_settings toy none (read_settings parse old_file).access_password_hash none
verify-update_other_example =
    verify-update_other toy parse keep_as_is (7 ∷ []) (object end) old_file none (λ s. refl)
      absent_test

handlers_guarded_example :
    ((get_host_settings toy parse keep_as_is (some (lit "t")) (some (lit "u")) old_file ≡ none)
      × (patch_host_settings toy parse keep_as_is
            (some (lit "t"))
            (some (lit "u"))
            (7 ∷ [])
            (object payload)
            old_file
          ≡ (old_file, none)))
    ⊎ ((t : Str) × (some (lit "t") ≡ some t) × (some (lit "u") ≡ some t) × (is_empty t ≡ false))
handlers_guarded_example =
    handlers_guarded toy parse keep_as_is (some (lit "t")) (some (lit "u")) (7 ∷ [])
      (object payload) old_file
