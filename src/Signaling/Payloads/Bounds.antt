-- ===== src/Signaling/Payloads/Bounds.antt =====
-- What the sanitizers of apps/server/src/signaling/signaling.gateway.ts let through.
use remote_controll_app.Prelude.{
  ℕ, ◌≤◌, ◌≡◌, refl, true, false, Option, none, some, [], ◌∷◌, arith, Bool-cases, inl, inr, length,
  subst,
}
use remote_controll_app.Text.{Str, trim, is_empty}
use remote_controll_app.Text.Laws.{trim-trim}
use remote_controll_app.Value.{Value, number, string, null, as_record}
use remote_controll_app.Value.Numeric.{whole_within, whole_within_bounds}
use remote_controll_app.Signaling.Payloads.{
  JoinPayload, DescriptionPayload, CandidatePayload, Nullable, given, or_omitted, is_session_id,
  sanitize_session_id, sanitize_optional_string, sanitize_sdp, sanitize_nullable_string,
  sanitize_nullable_integer, non_empty, read_role, read_description_type, ◌>>=◌,
  sanitize_join_payload, sanitize_description_payload, sanitize_candidate_payload,
}

-- A session id: 1 to 64 word characters, and trimmed.
pub record IsSessionId (s : Str) : Type 0 where
  pub shape : is_session_id s ≡ true
  pub trimmed : trim s ≡ s

pub sanitize_session_id-IsSessionId :
    (v : Value) {s : Str} → sanitize_session_id v ≡ some s → IsSessionId s
unfolding sanitize_session_id
sanitize_session_id-IsSessionId (string t) {s} h = elim (Bool-cases (is_session_id (trim t))) [
  | inl y ↦
      let same : trim t ≡ s = cc (rw y at h) in
      rw (← same) (record { shape = y; trimmed = trim-trim t })
  | inr n ↦ cc (rw n at h)
]
sanitize_session_id-IsSessionId v h = cc h

-- An optional text that is there is trimmed and no longer than the limit.
abbrev pub Fits : ℕ → Option Str → Type 0
Fits max none = Unit
Fits max (some s) = (length s ≤ max) × (trim s ≡ s)

pub sanitize_optional_string-Fits :
    (max : ℕ) (v : Value) → Fits max (sanitize_optional_string max v)
unfolding sanitize_optional_string
sanitize_optional_string-Fits max (string t) = ground (arith, trim-trim t)
sanitize_optional_string-Fits max v = tt

fits_some :
    (max : ℕ) (v : Value) {s : Str} → sanitize_optional_string max v ≡ some s → Fits max (some s)
fits_some max v e = subst (Fits max) e (sanitize_optional_string-Fits max v)

-- So it is after an empty text was dropped, and then it is not empty.
abbrev pub FitsNonEmpty : ℕ → Option Str → Type 0
FitsNonEmpty max none = Unit
FitsNonEmpty max (some s) = (is_empty s ≡ false) × (length s ≤ max) × (trim s ≡ s)

non_empty-Fits : (max : ℕ) (o : Option Str) → Fits max o → FitsNonEmpty max (non_empty o)
non_empty-Fits max none h = tt
non_empty-Fits max (some []) h = tt
non_empty-Fits max (some (c ∷ s)) h = (refl, h.0, h.1)

-- The SDP is handed on as it came, up to a length.
abbrev pub Within : ℕ → Option Str → Type 0
Within max none = Unit
Within max (some s) = length s ≤ max

sanitize_sdp-Within : (max : ℕ) (v : Value) → Within max (sanitize_sdp max v)
unfolding sanitize_sdp
sanitize_sdp-Within max (string t) = ground arith
sanitize_sdp-Within max v = tt

abbrev pub NullableFits : ℕ → Nullable Str → Type 0
NullableFits max (given s) = (length s ≤ max) × (trim s ≡ s)
NullableFits max _ = Unit

sanitize_nullable_string-Fits :
    (max : ℕ) (v : Value) → NullableFits max (sanitize_nullable_string max v)
unfolding sanitize_nullable_string
sanitize_nullable_string-Fits max null = tt
sanitize_nullable_string-Fits max (string t) = ground (arith, trim-trim t)
sanitize_nullable_string-Fits max v = tt

abbrev pub LineFits : Nullable ℕ → Type 0
LineFits (given n) = n ≤ 255
LineFits _ = Unit

line_fits : (o : Option ℕ) → ((v : ℕ) → o ≡ some v → v ≤ 255) → LineFits (or_omitted o)
line_fits none h = tt
line_fits (some v) h = h v refl

sanitize_nullable_integer-Fits : (v : Value) → LineFits (sanitize_nullable_integer 0 255 v)
unfolding sanitize_nullable_integer
sanitize_nullable_integer-Fits null = tt
sanitize_nullable_integer-Fits (number n) =
    line_fits (whole_within 0 255 n) (λ v e. (whole_within_bounds 0 255 n e).1)
sanitize_nullable_integer-Fits v = tt

pub record IsJoinPayload (p : JoinPayload) : Type 0 where
  pub session : IsSessionId p.session_id
  pub name : FitsNonEmpty 80 p.display_name
  pub password : Fits 256 p.password

-- Inversion of a bind that gave a value.
pub bind-eq-some {ℓ κ} :
    {A : Type ℓ} {B : Type κ} (m : Option A) (k : A → Option B) {b : B}
    → (m >>= k) ≡ some b
    → (a : A) × (m ≡ some a) × (k a ≡ some b)
bind-eq-some none k h = cc
bind-eq-some (some a) k h = (a, refl, h)

-- What holds of the value that is built holds of the value that is returned.
pub of_some {ℓ} : {A : Type ℓ} (P : A → Type 0) {a b : A} → some a ≡ some b → P a → P b
of_some P {a} {b} h p = let same : a ≡ b = cc h in subst P same p

-- A join payload that is let through has a session id of 1 to 64 word characters, a name that is
-- left out or has 1 to 80 code units, and a password that is left out or has at most 256.
pub sanitize_join_payload-IsJoinPayload :
    (v : Value) (p : JoinPayload) → sanitize_join_payload v ≡ some p → IsJoinPayload p
unfolding sanitize_join_payload
sanitize_join_payload-IsJoinPayload v p h =
    let (fields, _, h1) = bind-eq-some (as_record v) _ h in
    let (session, e, h2) = bind-eq-some (sanitize_session_id _) _ h1 in
    let (role, _, h3) = bind-eq-some (read_role _) _ h2 in
    of_some IsJoinPayload h3 (record {
      session = sanitize_session_id-IsSessionId _ e;
      name = non_empty-Fits 80 _ (sanitize_optional_string-Fits 80 _);
      password = sanitize_optional_string-Fits 256 _;
    })

-- An offer or an answer that is relayed.
pub record IsDescription (p : DescriptionPayload) : Type 0 where
  pub session : IsSessionId p.session_id
  pub target : FitsNonEmpty 128 p.target_client_id
  pub sdp : Within 1000000 p.sdp

-- A description that is let through has a session id of 1 to 64 word characters, a target that is
-- left out or has 1 to 128 code units, and an SDP that is left out or has at most a million.
pub sanitize_description_payload-IsDescription :
    (v : Value) (p : DescriptionPayload) → sanitize_description_payload v ≡ some p → IsDescription p
unfolding sanitize_description_payload
sanitize_description_payload-IsDescription v p h =
    let (fields, _, h1) = bind-eq-some (as_record v) _ h in
    let (description, _, h2) = bind-eq-some (as_record _) _ h1 in
    let (session, e, h3) = bind-eq-some (sanitize_session_id _) _ h2 in
    let (type, _, h4) = bind-eq-some (read_description_type _) _ h3 in
    of_some IsDescription h4 (record {
      session = sanitize_session_id-IsSessionId _ e;
      target = non_empty-Fits 128 _ (sanitize_optional_string-Fits 128 _);
      sdp = sanitize_sdp-Within 1000000 _;
    })

-- A candidate that is relayed.
pub record IsCandidate (p : CandidatePayload) : Type 0 where
  pub session : IsSessionId p.session_id
  pub target : FitsNonEmpty 128 p.target_client_id
  pub candidate : Fits 4096 (some p.candidate)
  pub mid : NullableFits 64 p.sdp_mid
  pub line : LineFits p.sdp_m_line_index
  pub fragment : NullableFits 256 p.username_fragment

-- A candidate that is let through keeps every limit of length, and its line index lies within the
-- bounds, where it is given.
pub sanitize_candidate_payload-IsCandidate :
    (v : Value) (p : CandidatePayload) → sanitize_candidate_payload v ≡ some p → IsCandidate p
unfolding sanitize_candidate_payload
sanitize_candidate_payload-IsCandidate v p h =
    let (fields, _, h1) = bind-eq-some (as_record v) _ h in
    let (candidate, _, h2) = bind-eq-some (as_record _) _ h1 in
    let (session, e, h3) = bind-eq-some (sanitize_session_id _) _ h2 in
    let (text, t, h4) = bind-eq-some (sanitize_optional_string 4096 _) _ h3 in
    of_some IsCandidate h4 (record {
      session = sanitize_session_id-IsSessionId _ e;
      target = non_empty-Fits 128 _ (sanitize_optional_string-Fits 128 _);
      candidate = fits_some 4096 _ t;
      mid = sanitize_nullable_string-Fits 64 _;
      line = sanitize_nullable_integer-Fits _;
      fragment = sanitize_nullable_string-Fits 256 _;
    })
