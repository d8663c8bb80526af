-- ===== src/Settings.antt =====
-- The settings of a host: `SettingsService` of apps/server/src/settings/settings.service.ts and
-- `SettingsController` of apps/server/src/settings/settings.controller.ts. The functions of
-- node:crypto and Buffer, `JSON` and the file are parameters. The awaited steps of an update run
-- without another update in between.
pub mod Laws
mod Tests
use remote_controll_app.Prelude.{
  ℕ, ◌≡◌, ◌↔◌, Bool, true, false, not, ◌&&◌, ◌||◌, Option, none, some, List, [], ◌∷◌, ◌++◌,
  if◌then◌else◌, nat_beq, all, length,
}
use remote_controll_app.Text.{Str, lit, str_beq, is_empty, trim, split, join}
use remote_controll_app.Value.{Value, Fields, end, as_record, as_string, as_boolean, lookup_field}

-- node:crypto and Buffer: `scrypt(password, salt, length)`, `toString("base64")`,
-- `Buffer.from(s, "base64")`, `Buffer.from(s)` and `timingSafeEqual`.
pub record Crypto : Type 0 where
  pub scrypt : Str → List ℕ → ℕ → List ℕ
  pub encode : List ℕ → Str
  pub decode : Str → List ℕ
  pub utf8 : Str → List ℕ
  pub timing_safe_equal : List ℕ → List ℕ → Bool

-- What they are documented to do: base64 is decoded to what was encoded, has no `$` and is not empty
-- but for no bytes; a key has the length that was asked for; buffers of one length are compared.
pub record IsLawful (crypto : Crypto) : Type 0 where
  pub decode-encode : (bytes : List ℕ) → crypto.decode (crypto.encode bytes) ≡ bytes
  pub encode_plain : (bytes : List ℕ) → all (λ c. not (nat_beq c b'$')) (crypto.encode bytes) ≡ true
  pub encode_full :
      (bytes : List ℕ) → is_empty bytes ≡ false → is_empty (crypto.encode bytes) ≡ false
  pub length-scrypt :
      (password : Str) (salt : List ℕ) (n : ℕ) → length (crypto.scrypt password salt n) ≡ n
  pub compares :
      (a b : List ℕ) → length a ≡ length b → (crypto.timing_safe_equal a b ≡ true) ↔ (a ≡ b)

-- `HostSettings`
pub record Settings : Type 0 where
  pub access_password : Option Str
  pub access_password_hash : Option Str
  pub access_password_set : Option Bool
  pub launch_on_startup : Option Bool
  pub require_viewer_approval : Option Bool
  pub save_directory : Option Str

-- `UpdateHostSettingsPayload` as it is sanitized: a hash that is there may be `undefined`.
pub record Patch : Type 0 where
  pub access_password_hash : Option (Option Str)
  pub launch_on_startup : Option Bool
  pub require_viewer_approval : Option Bool
  pub save_directory : Option Str

abbrev pub no_settings : Settings
no_settings = record {
  access_password = none;
  access_password_hash = none;
  access_password_set = none;
  launch_on_startup = none;
  require_viewer_approval = none;
  save_directory = none;
}

-- A field of `{ ...current, ...patch }`.
abbrev pub override {ℓ} : {A : Type ℓ} → Option A → Option A → Option A
override (some x) current = some x
override none current = current

abbrev pub replace {ℓ} : {A : Type ℓ} → Option (Option A) → Option A → Option A
replace (some o) current = o
replace none current = current

-- `next`, after `delete next.accessPassword`.
unfoldable pub merge : Settings → Patch → Settings
merge current patch = record {
  access_password = none;
  access_password_hash = replace patch.access_password_hash current.access_password_hash;
  access_password_set = current.access_password_set;
  launch_on_startup = override patch.launch_on_startup current.launch_on_startup;
  require_viewer_approval = override patch.require_viewer_approval current.require_viewer_approval;
  save_directory = override patch.save_directory current.save_directory;
}

abbrev pub trim_some : Option Str → Option Str
trim_some none = none
trim_some (some s) = some (trim s)

-- The fields of a payload; one that is no object has none.
abbrev pub fields_of : Option Fields → Fields
fields_of none = end
fields_of (some fs) = fs

abbrev pub password_prefix : Str
password_prefix = lit "scrypt:v1"

module _ (crypto : Crypto) where
  unfoldable pub hash_access_password : Str → List ℕ → Str
  hash_access_password password salt =
      join b'$'
        (password_prefix ∷ crypto.encode salt ∷ crypto.encode (crypto.scrypt password salt 32) ∷ [])

  -- `safeEqualBuffers`
  unfoldable pub safe_equal_buffers : List ℕ → List ℕ → Bool
  safe_equal_buffers a b =
      if not (nat_beq (length a) (length b)) then false else crypto.timing_safe_equal a b

  unfoldable pub safe_equal : Str → Str → Bool
  unfolding safe_equal_buffers
  safe_equal a b = safe_equal_buffers (crypto.utf8 a) (crypto.utf8 b)

  -- `verifyAccessPassword`, on the pieces of the stored hash; those after the third are dropped.
  unfoldable pub verify_parts : Str → List Str → Bool
  unfolding safe_equal_buffers
  verify_parts password (prefix ∷ salt ∷ key ∷ rest) =
      let expected = crypto.decode key in
      let actual = crypto.scrypt password (crypto.decode salt) (length expected) in
      if not (str_beq prefix password_prefix) || is_empty salt || is_empty key
      then false
      else safe_equal_buffers actual expected
  verify_parts password _ = false

  unfoldable pub verify_access_password : Str → Str → Bool
  unfolding verify_parts
  verify_access_password password stored = verify_parts password (split b'$' stored)

  -- The new hash of a password that is given: none for a blank one.
  abbrev pub new_hash : List ℕ → Str → Option Str
  new_hash salt password =
      if is_empty password then none else some (hash_access_password password salt)

  abbrev pub patch_hash : List ℕ → Option Str → Option (Option Str)
  patch_hash salt none = none
  patch_hash salt (some password) = some (new_hash salt (trim password))

  -- `sanitizeHostSettingsPayload`, with the salt that `randomBytes` gives.
  unfoldable pub sanitize_host_settings_payload : List ℕ → Value → Patch
  unfolding hash_access_password
  sanitize_host_settings_payload salt payload =
      let fields = fields_of (as_record payload) in
      record {
        access_password_hash =
            patch_hash salt (as_string (lookup_field (lit "accessPassword") fields));
        launch_on_startup = as_boolean (lookup_field (lit "launchOnStartup") fields);
        require_viewer_approval = as_boolean (lookup_field (lit "requireViewerApproval") fields);
        save_directory = trim_some (as_string (lookup_field (lit "saveDirectory") fields));
      }

  -- `safeEqual` on the old plaintext password, and no password at all.
  abbrev pub verify_legacy : Option Str → Str → Bool
  verify_legacy given legacy =
      if is_empty legacy then true else elim given [ none ↦ false | some p ↦ safe_equal p legacy ]

  abbrev pub verify_plain : Option Str → Option Str → Bool
  verify_plain given none = true
  verify_plain given (some legacy) = verify_legacy given (trim legacy)

  abbrev pub verify_hash : Option Str → Str → Bool
  verify_hash none hash = false
  verify_hash (some p) hash = verify_access_password p hash

  -- `verifyHostPassword`, on the settings that were read.
  unfoldable pub verify_settings : Option Str → Option Str → Option Str → Bool
  unfolding verify_access_password safe_equal
  verify_settings given (some hash) plain =
      if is_empty hash then verify_plain given plain else verify_hash given hash
  verify_settings given none plain = verify_plain given plain

-- The answer of the controller: `sanitizeHostSettings`.
abbrev pub is_set : Option Str → Bool
is_set none = false
is_set (some s) = not (is_empty s)

abbrev pub or_true : Option Bool → Option Bool
or_true none = some true
or_true (some b) = some b

unfoldable pub sanitize_host_settings : Settings → Settings
sanitize_host_settings settings = record {
  access_password = none;
  access_password_hash = none;
  access_password_set =
      some (is_set settings.access_password_hash || is_set settings.access_password);
  launch_on_startup = settings.launch_on_startup;
  require_viewer_approval = or_true settings.require_viewer_approval;
  save_directory = settings.save_directory;
}

-- `assertSettingsAccess`: the token of the environment against that of the request.
unfoldable pub has_settings_access : Option Str → Option Str → Bool
has_settings_access none token = false
has_settings_access (some expected) none = false
has_settings_access (some expected) (some token) = not (is_empty expected) && str_beq token expected

-- `readSettings`: no file, or one that cannot be read or parsed, has no settings.
abbrev pub parsed_or_empty : Option Settings → Settings
parsed_or_empty none = no_settings
parsed_or_empty (some s) = s

unfoldable pub read_settings : {Json : Type 0} → (Json → Option Settings) → Option Json → Settings
read_settings parse_json none = no_settings
read_settings parse_json (some raw) = parsed_or_empty (parse_json raw)

-- `JSON` and the file, which holds a text of it; `none` where there is no file, or where parsing throws.
module _ {Json : Type 0} (crypto : Crypto) (parse_json : Json → Option Settings)
    (stringify : Settings → Json) where
  -- `updateHostSettings`: the file after it, and the answer.
  unfoldable pub update_host_settings : List ℕ → Value → Option Json → Option Json × Settings
  unfolding read_settings merge sanitize_host_settings_payload
  update_host_settings salt payload file =
      let next =
        merge (read_settings parse_json file)
          (sanitize_host_settings_payload crypto salt payload) in
      (some (stringify next), next)

  unfoldable pub verify_host_password : Option Str → Option Json → Bool
  unfolding read_settings verify_settings
  verify_host_password given file =
      let settings = read_settings parse_json file in
      verify_settings crypto given settings.access_password_hash settings.access_password

  -- The two handlers of the controller; `none` is the exception.
  unfoldable pub get_host_settings : Option Str → Option Str → Option Json → Option Settings
  unfolding has_settings_access sanitize_host_settings
  get_host_settings expected token file =
      if has_settings_access expected token
      then some (sanitize_host_settings (read_settings parse_json file))
      else none

  unfoldable pub patch_host_settings :
      Option Str → Option Str → List ℕ → Value → Option Json → Option Json × Option Settings
  unfolding has_settings_access sanitize_host_settings update_host_settings
  patch_host_settings expected token salt payload file =
      let (file', next) = update_host_settings salt payload file in
      if has_settings_access expected token
      then (file', some (sanitize_host_settings next))
      else (file, none)
