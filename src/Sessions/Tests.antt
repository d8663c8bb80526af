-- ===== src/Sessions/Tests.antt =====
-- A session of a host and a viewer, in a registry of at most two sessions.
use remote_controll_app.Prelude.{
  ◌≡◌, ◌≢◌, refl, none, some, [], ◌∷◌, ◌+◌, arith, if◌then◌else◌, length, ◌&&◌,
}
use remote_controll_app.JsMap
use remote_controll_app.Text.{str_eq, str_beq, str_beq_iff, lit}
use remote_controll_app.Sessions.{
  Peer, host, viewer, Sessions, ok, refused, role_taken, add_peer, assert_capacity, put_peer,
  others, total_peers, find_role, is_other_peer, role_beq, remove_peer, remove_first, put_room,
  touch_peer, lookup_peer, get_peer, find_peer, get_peer_by_role,
}
use remote_controll_app.Sessions.Expiry.{
  remove_expired_peers, live_room, live_sessions, expired_in, expired_sessions, get_stats,
}
use remote_controll_app.Sessions.Invariant.{IsValid, add_peer-IsValid}
use remote_controll_app.Sessions.Removal.{remove_peer-IsValid, remove_expired_peers-IsValid}
use remote_controll_app.Sessions.View.{
  view, unless_expired, touched, view-add_peer, view-touch_peer, view-remove_expired_peers,
}
use remote_controll_app.Sessions.Leaving.{removed_from, view-remove_peer, remove_peer-get_peer}
use remote_controll_app.Sessions.Behaviour.{
  get_peer_by_role-add_peer, add_peer-add_peer, touched_survives, get_stats-remove_expired_peers,
}

registry : Unit {0}
unfolding add_peer assert_capacity put_peer others total_peers find_role is_other_peer role_beq
    remove_peer remove_first put_room touch_peer lookup_peer get_peer find_peer get_peer_by_role
    remove_expired_peers live_room live_sessions expired_in expired_sessions get_stats view
    JsMap.get JsMap.set JsMap.has JsMap.delete str_beq
registry = tt

abbrev empty : Sessions
empty = record {
  sessions = [];
  max_sessions = 2;
  max_peers_per_session = 2;
  max_total_peers = 4;
  peer_ttl_ms = 100;
}

abbrev ann : Peer
ann = record { client_id = lit "ann"; role = host; display_name = none }

abbrev bob : Peer
bob = record { client_id = lit "bob"; role = viewer; display_name = none }

abbrev eve : Peer
eve = record { client_id = lit "eve"; role = host; display_name = none }

-- After the host was added, and after the viewer was.
abbrev hosted : Sessions
hosted = record empty {
  sessions = (lit "s", (lit "ann", record { peer = ann; last_seen_at = 5 }) ∷ []) ∷ [];
}

abbrev full : Sessions
full = record empty {
  sessions =
      (
        lit "s",
        (lit "ann", record { peer = ann; last_seen_at = 5 })
            ∷ (lit "bob", record { peer = bob; last_seen_at = 90 })
            ∷ [],
      )
      ∷ [];
}

added_test :
    (add_peer (lit "s") ann 5 empty ≡ ok hosted [])
    × (add_peer (lit "s") bob 90 hosted ≡ ok full (ann ∷ []))
unfolding registry
added_test = (refl, refl)

removed_test : (remove_peer (lit "bob") full).0 ≡ hosted
unfolding registry
removed_test = refl

empty-IsValid : IsValid empty
unfolding registry
empty-IsValid = record {
  ids = tt;
  rooms = tt;
  sessions = omega arith;
  total = omega arith;
  room = omega arith;
}

hosted-IsValid : IsValid hosted
hosted-IsValid = add_peer-IsValid (lit "s") ann 5 empty empty-IsValid hosted [] added_test.0

full-IsValid : IsValid full
full-IsValid = add_peer-IsValid (lit "s") bob 90 hosted hosted-IsValid full (ann ∷ []) added_test.1

add_peer-IsValid_example : IsValid full
add_peer-IsValid_example =
    add_peer-IsValid (lit "s") bob 90 hosted hosted-IsValid full (ann ∷ []) added_test.1

remove_peer-IsValid_example : IsValid (remove_peer (lit "bob") full).0
remove_peer-IsValid_example = remove_peer-IsValid (lit "bob") full full-IsValid

remove_expired_peers-IsValid_example : IsValid (remove_expired_peers 110 full).0
remove_expired_peers-IsValid_example = remove_expired_peers-IsValid 110 full full-IsValid

view-add_peer_example : view full (lit "s") (lit "bob") ≡ (
    if str_beq (lit "s") (lit "s") && str_beq bob.client_id (lit "bob")
    then some (record { peer = bob; last_seen_at = 90 })
    else view hosted (lit "s") (lit "bob"))
view-add_peer_example =
    view-add_peer (lit "s") bob 90 hosted full (ann ∷ []) (lit "s") (lit "bob") added_test.1

view-touch_peer_example :
    view (touch_peer (lit "s") (lit "ann") 100 full).0 (lit "s") (lit "ann") ≡ (
      if str_beq (lit "s") (lit "s") && str_beq (lit "ann") (lit "ann")
      then touched 100 (view full (lit "s") (lit "ann"))
      else view full (lit "s") (lit "ann"))
view-touch_peer_example = view-touch_peer (lit "s") (lit "ann") 100 full (lit "s") (lit "ann")

view-remove_expired_peers_example :
    view (remove_expired_peers 110 full).0 (lit "s") (lit "ann")
    ≡ unless_expired 100 110 (view full (lit "s") (lit "ann"))
view-remove_expired_peers_example =
    view-remove_expired_peers 110 full (lit "s") (lit "ann") full-IsValid

view-remove_peer_example : view (remove_peer (lit "bob") full).0 (lit "s") (lit "bob") ≡ (
    if removed_from (lit "s") (get_peer (lit "bob") full) && str_beq (lit "bob") (lit "bob")
    then none
    else view full (lit "s") (lit "bob"))
view-remove_peer_example = view-remove_peer (lit "bob") full (lit "s") (lit "bob") full-IsValid

remove_peer-get_peer_example : (remove_peer (lit "bob") full).1 ≡ get_peer (lit "bob") full
remove_peer-get_peer_example = remove_peer-get_peer (lit "bob") full

get_peer_by_role-add_peer_example : get_peer_by_role (lit "s") viewer full ≡ some bob
get_peer_by_role-add_peer_example =
    get_peer_by_role-add_peer (lit "s") bob 90 hosted full (ann ∷ []) hosted-IsValid added_test.1

ann_not_eve : lit "ann" ≢ lit "eve"
unfolding registry
ann_not_eve h = cc ((str_beq_iff (lit "ann") (lit "eve")).1 h)

add_peer-add_peer_example :
    (add_peer (lit "s") eve 95 hosted ≡ refused role_taken)
    × (get_peer_by_role (lit "s") host hosted ≡ some ann)
add_peer-add_peer_example =
    add_peer-add_peer (lit "s") ann eve 5 95 empty hosted [] empty-IsValid added_test.0 refl
      ann_not_eve

ann_stored : view full (lit "s") (lit "ann") ≡ some (record { peer = ann; last_seen_at = 5 })
unfolding registry
ann_stored = refl

touched_survives_example :
    view
      (remove_expired_peers 180 (touch_peer (lit "s") (lit "ann") 100 full).0).0
      (lit "s")
      (lit "ann")
    ≡ some (record { peer = ann; last_seen_at = 100 })
touched_survives_example =
    touched_survives (lit "s") (lit "ann") (record { peer = ann; last_seen_at = 5 }) 100 180 full
      full-IsValid ann_stored (omega arith)

get_stats-remove_expired_peers_example :
    (get_stats (remove_expired_peers 110 full).0).connected_clients
      + length (remove_expired_peers 110 full).1
    ≡ (get_stats full).connected_clients
get_stats-remove_expired_peers_example = get_stats-remove_expired_peers 110 full
