-- ===== src/Settings/Laws.antt =====
-- What the password check of apps/server/src/settings/settings.service.ts accepts after an update, and
-- what its controller lets out.
use remote_controll_app.Prelude.{
  ℕ, ◌≡◌, ◌↔◌, ◌⊎◌, ◌∙◌, refl, sym, ap, true, false, not, ◌&&◌, Option, none, some, List, [], ◌∷◌,
  ◌++◌, nat_beq, all, length, arith, Bool-cases, inl, inr,
}
use remote_controll_app.Text.{
  Str, lit, str_beq, str_beq_iff, is_empty, trim, split, split_head, split_tail, join,
}
use remote_controll_app.Value.{Value, string, object, Fields, as_record, as_string, lookup_field}
use remote_controll_app.Settings.{
  Crypto, IsLawful, Settings, password_prefix, fields_of, hash_access_password, verify_parts,
  verify_access_password, sanitize_host_settings_payload, merge, verify_settings, read_settings,
  update_host_settings, verify_host_password, has_settings_access, get_host_settings,
  patch_host_settings,
}

-- A piece without the separator is split off.
split_head-append :
    (sep : ℕ) (a b : Str)
    → all (λ c. not (nat_beq c sep)) a ≡ true
    → split_head sep (a ++ sep ∷ b) ≡ a
unfolding split_head
split_head-append sep [] b h = ground arith
split_head-append sep (c ∷ a) b h = ground (arith, split_head-append sep a b, h)

split_tail-append :
    (sep : ℕ) (a b : Str)
    → all (λ c. not (nat_beq c sep)) a ≡ true
    → split_tail sep (a ++ sep ∷ b) ≡ split sep b
unfolding split split_head split_tail
split_tail-append sep [] b h = ground arith
split_tail-append sep (c ∷ a) b h = ground (arith, split_tail-append sep a b, h)

split-append :
    (sep : ℕ) (a b : Str)
    → all (λ c. not (nat_beq c sep)) a ≡ true
    → split sep (a ++ sep ∷ b) ≡ a ∷ split sep b
unfolding split
split-append sep a b h = rw (split_head-append sep a b h, split_tail-append sep a b h) refl

split_head-plain :
    (sep : ℕ) (a : Str) → all (λ c. not (nat_beq c sep)) a ≡ true → split_head sep a ≡ a
unfolding split_head
split_head-plain sep [] h = refl
split_head-plain sep (c ∷ a) h = ground (arith, split_head-plain sep a, h)

split_tail-plain :
    (sep : ℕ) (a : Str) → all (λ c. not (nat_beq c sep)) a ≡ true → split_tail sep a ≡ []
unfolding split_head split_tail
split_tail-plain sep [] h = refl
split_tail-plain sep (c ∷ a) h = ground (arith, split_tail-plain sep a, h)

split-plain : (sep : ℕ) (a : Str) → all (λ c. not (nat_beq c sep)) a ≡ true → split sep a ≡ a ∷ []
unfolding split
split-plain sep a h = rw (split_head-plain sep a h, split_tail-plain sep a h) refl

long_full : (bytes : List ℕ) → length bytes ≡ 32 → is_empty bytes ≡ false
long_full [] e = absurd (omega (arith, e))
long_full (b ∷ bytes) e = refl

module _ (crypto : Crypto) (lawful : IsLawful crypto) where
  split-hash :
      (password : Str) (salt : List ℕ)
      → split b'$' (hash_access_password crypto password salt)
        ≡ password_prefix ∷ crypto.encode salt ∷ crypto.encode (crypto.scrypt password salt 32) ∷ []
  unfolding hash_access_password join
  split-hash password salt =
      split-append b'$' password_prefix _ refl
      ∙ ap (λ (s : List Str). password_prefix ∷ s)
          (split-append b'$' (crypto.encode salt) _ (lawful.encode_plain salt)
            ∙ ap (λ (s : List Str). crypto.encode salt ∷ s)
                (split-plain b'$' (crypto.encode (crypto.scrypt password salt 32))
                  (lawful.encode_plain (crypto.scrypt password salt 32))))

  full_key : (password : Str) (salt : List ℕ) → is_empty (crypto.scrypt password salt 32) ≡ false
  full_key password salt =
      long_full (crypto.scrypt password salt 32) (lawful.length-scrypt password salt 32)

  -- A password is checked against a hash by comparing keys.
  verify-hash :
      (p password : Str) (salt : List ℕ)
      → is_empty salt ≡ false
      → (verify_access_password crypto p (hash_access_password crypto password salt) ≡ true)
        ↔ (crypto.scrypt p salt 32 ≡ crypto.scrypt password salt 32)
  unfolding verify_access_password verify_parts
  verify-hash p password salt full =
      rw
        (
          split-hash password salt,
          (str_beq_iff password_prefix password_prefix).1 refl,
          lawful.encode_full salt full,
          lawful.encode_full (crypto.scrypt password salt 32) (full_key password salt),
          lawful.decode-encode salt,
          lawful.decode-encode (crypto.scrypt password salt 32),
          lawful.length-scrypt password salt 32,
          lawful.length-scrypt p salt 32,
        )
        (lawful.compares (crypto.scrypt p salt 32) (crypto.scrypt password salt 32)
          (lawful.length-scrypt p salt 32 ∙ sym (lawful.length-scrypt password salt 32)))

module _ {Json : Type 0} (crypto : Crypto) (parse_json : Json → Option Settings)
    (stringify : Settings → Json) where
  -- The settings that are read after an update.
  read-update :
      (salt : List ℕ) (payload : Value) (file : Option Json)
      → ((s : Settings) → parse_json (stringify s) ≡ some s)
      → read_settings parse_json
          (update_host_settings crypto parse_json stringify salt payload file).0
        ≡ merge (read_settings parse_json file) (sanitize_host_settings_payload crypto salt payload)
  unfolding read_settings update_host_settings
  read-update salt payload file written = rw (written (merge _ _)) refl

  hash_full :
      (password : Str) (salt : List ℕ)
      → is_empty (hash_access_password crypto password salt) ≡ false
  unfolding hash_access_password join
  hash_full password salt = refl

  -- Where the file keeps what is written: after an update with a password that is not blank, and a salt
  -- that is not empty, exactly the passwords with the key of the trimmed one are accepted.
  pub verify-update :
      (lawful : IsLawful crypto) (salt : List ℕ) (fields : Fields) (file : Option Json)
      (password p : Str)
      → ((s : Settings) → parse_json (stringify s) ≡ some s)
      → is_empty salt ≡ false
      → lookup_field (lit "accessPassword") fields ≡ string password
      → is_empty (trim password) ≡ false
      → (verify_host_password crypto parse_json stringify
            (some p)
            (update_host_settings crypto parse_json stringify salt (object fields) file).0
          ≡ true)
        ↔ (crypto.scrypt p salt 32 ≡ crypto.scrypt (trim password) salt 32)
  unfolding verify_host_password verify_settings merge sanitize_host_settings_payload as_record
  verify-update lawful salt fields file password p written full given filled =
      rw
        (
          read-update salt (object fields) file written,
          given,
          filled,
          hash_full (trim password) salt,
        )
        (verify-hash crypto lawful p (trim password) salt full)

  -- An update without a password, as a text, leaves a hash as it is; where there is none, everybody is
  -- accepted after it, also where a plaintext password was asked for before.
  pub verify-update_other :
      (salt : List ℕ) (payload : Value) (file : Option Json) (given : Option Str)
      → ((s : Settings) → parse_json (stringify s) ≡ some s)
      → as_string (lookup_field (lit "accessPassword") (fields_of (as_record payload))) ≡ none
      → verify_host_password crypto parse_json stringify given
          (update_host_settings crypto parse_json stringify salt payload file).0
        ≡ verify_settings crypto given (read_settings parse_json file).access_password_hash none
  unfolding verify_host_password merge sanitize_host_settings_payload
  verify-update_other salt payload file given written absent =
      rw (read-update salt payload file written, absent) refl

  -- Either both handlers answer nothing and the file stays as it is, or the request has the token of
  -- the environment, which is not empty.
  pub handlers_guarded :
      (expected token : Option Str) (salt : List ℕ) (payload : Value) (file : Option Json)
      → ((get_host_settings crypto parse_json stringify expected token file ≡ none)
          × (patch_host_settings crypto parse_json stringify expected token salt payload file
              ≡ (file, none)))
        ⊎ ((t : Str) × (expected ≡ some t) × (token ≡ some t) × (is_empty t ≡ false))
  unfolding get_host_settings patch_host_settings has_settings_access
  handlers_guarded none token salt payload file = inl (refl, refl)
  handlers_guarded (some t) none salt payload file = inl (refl, refl)
  handlers_guarded (some t) (some u) salt payload file =
      elim (Bool-cases (not (is_empty t) && str_beq u t)) [
        | inl y ↦ inr (
          t,
          refl,
          ap (λ (v : Str). some v) ((str_beq_iff u t).0 (ground (arith, y))),
          ground (arith, y),
        )
        | inr n ↦ inl (rw n refl, rw n refl)
      ]
