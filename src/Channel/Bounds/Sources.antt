-- ===== src/Channel/Bounds/Sources.antt =====
-- The sources of a host state: `sanitizeHostStateMessage` of
-- apps/desktop/src/renderer/src/webrtc/RemoteControlClient.ts.
use remote_controll_app.Prelude.{
  ℕ, ◌≤◌, ◌≡◌, refl, Bool, true, false, Option, none, some, List, [], ◌∷◌, arith, Bool-cases,
  Option-cases, inl, inr, leb, leb→le, length, All,
}
use remote_controll_app.Text.{Str, lit, str_beq_iff}
use remote_controll_app.Value.{Value, Items, nil, cons, as_record, lookup_field}
use remote_controll_app.Signaling.Payloads.{non_empty}
use remote_controll_app.Signaling.Payloads.Bounds.{bind-eq-some, of_some}
use remote_controll_app.Input.{sanitize_string}
use remote_controll_app.Channel.{
  Source, is_seen, push_source, count, read_source, read_sources, sources_within, check_active,
}
use remote_controll_app.Channel.Bounds.{Named, read-Named}

pub record IsSource (s : Source) : Type 0 where
  pub id : Named 256 s.id
  pub name : Named 256 s.name

-- No id is there twice.
abbrev pub AreDistinct : List Source → Type 0
AreDistinct [] = Unit
AreDistinct (s ∷ sources) = (is_seen s.id sources ≡ false) × AreDistinct sources

-- None of the sources has the id of one that was seen.
abbrev pub AreNew : List Source → List Source → Type 0
AreNew seen = All (λ s. is_seen s.id seen ≡ false)

pub record AreSources (sources : List Source) : Type 0 where
  pub each : All IsSource sources
  pub distinct : AreDistinct sources

read_source-IsSource : (v : Value) {s : Source} → read_source v ≡ some s → IsSource s
unfolding read_source
read_source-IsSource v h =
    let (fields, _, h1) = bind-eq-some (as_record v) _ h in
    let (id, e, h2) =
      bind-eq-some (non_empty (sanitize_string 256 true (lookup_field (lit "id") fields))) _ h1 in
    let (name, e', h3) =
      bind-eq-some (non_empty (sanitize_string 256 true (lookup_field (lit "name") fields))) _ h2 in
    of_some IsSource h3 (record { id = read-Named 256 _ e; name = read-Named 256 _ e' })

-- What is new to more sources is new to fewer, and the one that is left out is not among them.
AreNew-fewer :
    (s : Source) (seen sources : List Source) → AreNew (s ∷ seen) sources → AreNew seen sources
AreNew-fewer s seen [] h = tt
AreNew-fewer s seen (t ∷ sources) h = (ground arith, AreNew-fewer s seen sources h.1)

not_seen :
    (s : Source) (seen sources : List Source)
    → AreNew (s ∷ seen) sources
    → is_seen s.id sources ≡ false
not_seen s seen [] h = refl
not_seen s seen (t ∷ sources) h =
    ground (arith, not_seen s seen sources h.1, str_beq_iff s.id t.id, str_beq_iff t.id s.id)

-- Without the lengths: what the loop returns.
record IsRead (items : Items) (seen sources : List Source) : Type 0 where
  ok : AreSources sources
  new : AreNew seen sources
  size : length sources ≡ count items

push-IsRead :
    (v : Value) (items : Items) (source : Source) (seen : List Source) (b : Bool)
    (rest : Option (List Source)) {sources : List Source}
    → IsSource source
    → is_seen source.id seen ≡ b
    → ((tail : List Source) → rest ≡ some tail → IsRead items (source ∷ seen) tail)
    → push_source source b rest ≡ some sources
    → IsRead (cons v items) seen sources
unfolding count
push-IsRead v items source seen true rest ok e tail h = cc h
push-IsRead v items source seen false none ok e tail h = cc h
push-IsRead v items source seen false (some found) {sources} ok e tail h =
    let r = tail found refl in
    let same : source ∷ found ≡ sources = cc h in
    rw (← same) (record {
      ok = record {
        each = (ok, r.ok.each);
        distinct = (not_seen source seen found r.new, r.ok.distinct);
      };
      new = (e, AreNew-fewer source seen found r.new);
      size = omega (arith, r.size);
    })

read_sources-IsRead :
    (items : Items) (seen : List Source) {sources : List Source}
    → read_sources items seen ≡ some sources
    → IsRead items seen sources
unfolding read_sources count
read_sources-IsRead nil seen {sources} h =
    let same : [] ≡ sources = cc h in
    rw (← same) (record { ok = record { each = tt; distinct = tt }; new = tt; size = refl })
read_sources-IsRead (cons v items) seen h = elim (Option-cases (read_source v)) [
  | inl e ↦ cc (rw (e, read_sources) at h)
  | inr (source, e) ↦
      push-IsRead v items source seen (is_seen source.id seen) (read_sources items (source ∷ seen))
        (read_source-IsSource v e) refl
        (λ tail there. read_sources-IsRead items (source ∷ seen) there) (rw (e, read_sources) at h)
]

pub sources_within-AreSources :
    (max : ℕ) (items : Items) {sources : List Source}
    → sources_within max items ≡ some sources
    → AreSources sources × (length sources ≤ max)
sources_within-AreSources max items h = elim (Bool-cases (leb (count items) max)) [
  | inl y ↦ let r = read_sources-IsRead items [] (rw y at h) in (r.ok, rw r.size (leb→le _ _ y))
  | inr n ↦ cc (rw n at h)
]

-- The active source is one of the sources.
abbrev pub IsActive : Option Str → List Source → Type 0
IsActive none sources = Unit
IsActive (some id) sources = is_seen id sources ≡ true

pub check_active-IsActive :
    (o : Option Str) (sources : List Source) {active : Option Str}
    → check_active o sources ≡ some active
    → IsActive active sources
check_active-IsActive none sources {active} h = let same : none ≡ active = cc h in rw (← same) tt
check_active-IsActive (some id) sources {active} h = elim (Bool-cases (is_seen id sources)) [
  | inl y ↦ let same : some id ≡ active = cc (rw y at h) in rw (← same) y
  | inr n ↦ cc (rw n at h)
]
