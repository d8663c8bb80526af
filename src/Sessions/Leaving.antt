-- ===== src/Sessions/Leaving.antt =====
-- What `removePeer` and `getPeer` do to the view of the registry.
use remote_controll_app.Prelude.{
  ◌≡◌, refl, Bool, false, ◌&&◌, Option, none, some, [], ◌∷◌, arith, if◌then◌else◌, Option-cases,
  inl, inr, ◌≢◌,
}
use remote_controll_app.JsMap
use remote_controll_app.JsMap.{JsMap, Distinct, get-delete, get-has, has-get}
use remote_controll_app.Text.{Str, str_eq, str_beq, str_beq_iff}
use remote_controll_app.Sessions.{
  StoredPeer, Room, Membership, Sessions, room_or_new, lookup_peer, remove_first, remove_peer,
  find_peer, get_peer,
}
use remote_controll_app.Sessions.Invariant.{IsValid}
use remote_controll_app.Sessions.View.{view, room-put_room}

-- Whether the membership that a removal returned is of this session.
abbrev pub removed_from : Str → Option Membership → Bool
removed_from id none = false
removed_from id (some mem) = str_beq mem.session_id id

module _ (c : Str) where
  remove_first-find_peer : (m : JsMap Str Room) → (remove_first c m).1 ≡ find_peer c m
  unfolding remove_first find_peer
  remove_first-find_peer [] = refl
  remove_first-find_peer ((sid, room) ∷ m) = ground (arith, remove_first-find_peer m)

  removed_from-absent :
      (id : Str) (m : JsMap Str Room)
      → JsMap.has id m ≡ false
      → removed_from id (find_peer c m) ≡ false
  unfolding find_peer JsMap.has
  removed_from-absent id [] h = refl
  removed_from-absent id ((sid, room) ∷ m) h = ground (arith, removed_from-absent id m)

  room-remove_first :
      (id : Str) (m : JsMap Str Room)
      → Distinct m
      → room_or_new (JsMap.get id (remove_first c m).0) ≡ (
          if removed_from id (find_peer c m)
          then JsMap.delete c (room_or_new (JsMap.get id m))
          else room_or_new (JsMap.get id m))
  unfolding remove_first find_peer JsMap.get
  room-remove_first id [] d = refl
  room-remove_first id ((sid, room) ∷ m) d = elim (Option-cases (JsMap.get c room)) [
    | inl e ↦
        rw (e, remove_first, find_peer)
          (ground
            (arith, room-remove_first id m d.1, removed_from-absent sid m d.0, str_beq_iff sid id))
    | inr (p, e) ↦
        rw (e, remove_first, find_peer, room-put_room id sid (JsMap.delete c room) m d.0)
          (ground (arith, str_beq_iff sid id))
  ]

-- `removePeer` returns the membership that `getPeer` finds.
pub remove_peer-get_peer : (c : Str) (s : Sessions) → (remove_peer c s).1 ≡ get_peer c s
unfolding remove_peer get_peer
remove_peer-get_peer c s = remove_first-find_peer c s.sessions

-- In a well formed registry, `removePeer` deletes the entry of the client in the session that
-- `getPeer` finds, and no other entry.
pub view-remove_peer :
    (c : Str) (s : Sessions) (id c' : Str)
    → IsValid s
    → view (remove_peer c s).0 id c'
      ≡ (if removed_from id (get_peer c s) && str_beq c c' then none else view s id c')
unfolding view remove_peer get_peer lookup_peer
view-remove_peer c s id c' v =
    rw (room-remove_first c id s.sessions v.ids)
      (ground (arith, get-delete c' c (room_or_new (JsMap.get id s.sessions))))

-- `getPeer` finds a session of the client, if there is one.
find_peer-lookup :
    (c : Str) (mem : Membership) (m : JsMap Str Room)
    → Distinct m
    → find_peer c m ≡ some mem
    → (p : StoredPeer) × (lookup_peer mem.session_id c m ≡ some p) × (p.peer ≡ mem.peer)
unfolding find_peer lookup_peer JsMap.get
find_peer-lookup c mem [] d h = cc
find_peer-lookup c mem ((sid, room) ∷ m) d h = elim (Option-cases (JsMap.get c room)) [
  | inl e ↦
      let h' : find_peer c m ≡ some mem = ground arith in
      let (p, l, same) = find_peer-lookup c mem m d.1 h' in
      (p, ground (arith, removed_from-absent c sid m d.0, str_beq_iff sid mem.session_id), same)
  | inr (p, e) ↦
      let same : record { session_id = sid; peer = p.peer } ≡ mem = cc (rw (e, find_peer) at h) in
      (p, rw (← same) (ground (arith, str_beq_iff sid sid)), cc same)
]

find_peer-none :
    (c id : Str) (m : JsMap Str Room) → find_peer c m ≡ none → lookup_peer id c m ≡ none
unfolding find_peer lookup_peer JsMap.get
find_peer-none c id [] h = refl
find_peer-none c id ((sid, room) ∷ m) h = elim (Option-cases (JsMap.get c room)) [
  | inl e ↦ ground (arith, find_peer-none c id m)
  | inr (p, e) ↦ cc (rw (e, find_peer) at h)
]

-- The client has an entry in one session at most.
abbrev pub InOneSession : Str → Sessions → Type 0
InOneSession c s = (id id' : Str) → view s id c ≢ none → view s id' c ≢ none → id ≡ id'

pub get_peer-none : (c id : Str) (s : Sessions) → get_peer c s ≡ none → view s id c ≡ none
unfolding get_peer view
get_peer-none c id s e = find_peer-none c id s.sessions e

-- The membership that `getPeer` returns is stored under its session.
pub view-get_peer :
    (c : Str) (s : Sessions) (mem : Membership)
    → IsValid s
    → get_peer c s ≡ some mem
    → (p : StoredPeer) × (view s mem.session_id c ≡ some p) × (p.peer ≡ mem.peer)
unfolding get_peer view
view-get_peer c s mem v e = find_peer-lookup c mem s.sessions v.ids e

-- A client of at most one session is gone after `removePeer`, and every other client stays.
pub remove_peer_gone :
    (c : Str) (s : Sessions) (id c' : Str)
    → IsValid s
    → InOneSession c s
    → view (remove_peer c s).0 id c' ≡ (if str_beq c c' then none else view s id c')
remove_peer_gone c s id c' v one =
    rw (view-remove_peer c s id c' v) (elim (Option-cases (get_peer c s)) [
      | inl e ↦ rw e (ground (arith, get_peer-none c id s e, str_beq_iff c c'))
      | inr (mem, e) ↦ elim (Option-cases (view s id c)) [
        | inl out ↦ rw e (ground (arith, str_beq_iff c c'))
        | inr (q, here) ↦
            let (p, there, _) = view-get_peer c s mem v e in
            let same = one mem.session_id id (rw there (λ h. cc h)) (rw here (λ h. cc h)) in
            rw (e, (str_beq_iff mem.session_id id).1 same) refl
      ]
    ])
