-- ===== src/Signaling/Tests.antt =====
-- A host and a viewer join, with an approval, and what the sanitizers make of their payloads.
use remote_controll_app.Prelude.{
  ℕ, ◌≡◌, refl, true, false, Bool, none, some, [], ◌∷◌, ◌++◌, arith, All,
}
use remote_controll_app.JsMap
use remote_controll_app.Text.{
  Str, str_eq, str_beq, lit, trim, trim_start, trim_end, is_space, is_word, is_letter, is_digit,
  split, split_head, split_tail,
}
use remote_controll_app.Value.{Value, string, object, end, field, as_record, lookup_field}
use remote_controll_app.RateLimit
use remote_controll_app.Sessions.{
  viewer, StoredPeer, add_peer, assert_capacity, put_peer, others, total_peers, find_role,
  is_other_peer, role_beq, remove_peer, remove_first, put_room, lookup_peer, get_peer_by_role,
}
use remote_controll_app.Sessions.Expiry.{
  remove_expired_peers, live_room, live_sessions, expired_in, expired_sessions,
}
use remote_controll_app.Sessions.View.{view}
use remote_controll_app.Signaling.Turn.{parse_list, IsEntry, parse_list-entries, stun_fallback}
use remote_controll_app.Signaling.Payloads
use remote_controll_app.Signaling.Payloads.{
  JoinPayload, DescriptionPayload, CandidatePayload, omitted, sanitize_join_payload,
  sanitize_description_payload, sanitize_candidate_payload, sanitize_session_id, is_session_id,
  read_role, read_description_type, sanitize_optional_string, sanitize_sdp,
  sanitize_nullable_string, sanitize_nullable_integer,
}
use remote_controll_app.Signaling.Payloads.Bounds.{
  IsJoinPayload, sanitize_join_payload-IsJoinPayload,
}
use remote_controll_app.Signaling.Gateway.{
  Gateway, Handshake, one, get_client_address, handle_connection, handle_disconnect,
  cleanup_expired_peers, is_recently_approved, check_approval, mark_approved, init_gateway,
  init_sessions, default_config, offer,
}
use remote_controll_app.Signaling.Gateway.Join.{
  join_session, attempt, admit, after_leave, after_settings, after_password, check_recent,
  request_approval, after_approval, after_room, answered, Phase, await_settings, await_password,
  await_approval,
}
use remote_controll_app.Signaling.Gateway.Connections.{
  IsCounted, handle_connection-IsCounted, handle_disconnect-IsCounted,
}
use remote_controll_app.Signaling.System.{
  System, joins, resumes, Reach, here, next, Answer, resume, start_join, facts_of, facts_of_join,
  settings_read, password_checked, host_replied,
}
use remote_controll_app.Signaling.System.Evidence.{Authorized, NoColon, approval_key_injective}
use remote_controll_app.Signaling.System.Authorization.{init_system, viewer-Authorized}

server : Unit {0}
unfolding join_session attempt admit after_leave after_settings after_password check_recent
    request_approval after_approval after_room resume start_join facts_of facts_of_join init_system
    init_gateway init_sessions cleanup_expired_peers is_recently_approved check_approval
    mark_approved get_client_address RateLimit.init RateLimit.consume RateLimit.is_allowed
    RateLimit.record_event RateLimit.reset RateLimit.get_active_events remove_expired_peers
    live_room live_sessions expired_in expired_sessions view add_peer assert_capacity put_peer
    others total_peers find_role is_other_peer role_beq remove_peer remove_first put_room
    lookup_peer get_peer_by_role sanitize_join_payload sanitize_description_payload
    sanitize_candidate_payload sanitize_session_id is_session_id read_role read_description_type
    sanitize_optional_string sanitize_sdp sanitize_nullable_string sanitize_nullable_integer trim
    trim_start trim_end is_space is_word is_letter is_digit split split_head split_tail as_record
    lookup_field JsMap.get JsMap.set JsMap.has JsMap.delete str_beq parse_list
server = tt

abbrev asks_join : Str → Value
asks_join role = object (
    field (lit "sessionId") (string (lit " desk-1 ")) (
      field (lit "role") (string role) (
        field (lit "displayName") (string (lit "Bob "))
          (field (lit "password") (string (lit "pw")) end))))

abbrev joining : JoinPayload
joining = record {
  session_id = lit "desk-1";
  role = viewer;
  display_name = some (lit "Bob");
  password = some (lit "pw");
}

joining_test : sanitize_join_payload (asks_join (lit "viewer")) ≡ some joining
unfolding server
joining_test = refl

sanitize_join_payload-IsJoinPayload_example : IsJoinPayload joining
sanitize_join_payload-IsJoinPayload_example =
    sanitize_join_payload-IsJoinPayload (asks_join (lit "viewer")) joining joining_test

abbrev offered : Value
offered = object (
    field (lit "sessionId") (string (lit "desk-1")) (
      field (lit "description")
        (object
          (field (lit "type") (string (lit "offer")) (field (lit "sdp") (string (lit "v=0")) end)))
        end))

abbrev description : DescriptionPayload
description = record {
  session_id = lit "desk-1";
  target_client_id = none;
  type = Payloads.offer;
  sdp = some (lit "v=0");
}

description_test : sanitize_description_payload offered ≡ some description
unfolding server
description_test = refl

abbrev found : Value
found = object (
    field (lit "sessionId") (string (lit "desk-1"))
      (field (lit "candidate") (object (field (lit "candidate") (string (lit "udp 1")) end)) end))

abbrev candidate : CandidatePayload
candidate = record {
  session_id = lit "desk-1";
  target_client_id = none;
  candidate = lit "udp 1";
  sdp_mid = omitted;
  sdp_m_line_index = omitted;
  username_fragment = omitted;
}

candidate_test : sanitize_candidate_payload found ≡ some candidate
unfolding server
candidate_test = refl

fallback_entries : All IsEntry stun_fallback
unfolding server
fallback_entries = ((refl, refl), tt)

parse_list-entries_example : All IsEntry (parse_list (some (lit " turn:a, ,turn:b ")) stun_fallback)
parse_list-entries_example =
    parse_list-entries (some (lit " turn:a, ,turn:b ")) stun_fallback fallback_entries

abbrev handshake : Handshake
handshake = record { forwarded_for = one (lit "10.0.0.7, 10.0.0.1"); address = lit "127.0.0.1" }

abbrev fresh : Gateway
fresh = init_gateway default_config []

fresh-IsCounted : IsCounted fresh
unfolding server
fresh-IsCounted = record { ids = tt; named = tt; exact = λ a. refl; limited = λ a. omega arith }

unknown : JsMap.has (lit "b") fresh.address_by_id ≡ false
unfolding server
unknown = refl

abbrev connected_once : Gateway
connected_once = (handle_connection (lit "b") handshake fresh).0

handle_connection-IsCounted_example : IsCounted connected_once
handle_connection-IsCounted_example =
    handle_connection-IsCounted (lit "b") handshake fresh unknown fresh-IsCounted

once-IsCounted : IsCounted connected_once
once-IsCounted = handle_connection-IsCounted (lit "b") handshake fresh unknown fresh-IsCounted

handle_disconnect-IsCounted_example : IsCounted (handle_disconnect (lit "b") connected_once).0
handle_disconnect-IsCounted_example =
    handle_disconnect-IsCounted (lit "b") connected_once once-IsCounted

desk_NoColon : NoColon (lit "d")
desk_NoColon = ((λ e. cc e), tt)

approval_key_injective_example : (lit "::1" ≡ lit "::1") × (lit "d" ≡ lit "d")
approval_key_injective_example =
    approval_key_injective (lit "::1") (lit "::1") (lit "d") (lit "d") desk_NoColon desk_NoColon
      refl

-- The host's join, then each of the viewer's segments; the host stays at its `await client.join`.
abbrev connected : Str → Bool
connected id = true

abbrev started : System
started = init_system default_config []

abbrev host_joins : System
host_joins = start_join (lit "a") handshake (asks_join (lit "host")) 1 started

abbrev viewer_joins : System
viewer_joins = start_join (lit "b") handshake (asks_join (lit "viewer")) 2 host_joins

-- The handler of the viewer goes on with an given, before the one of the host.
abbrev goes_on : Phase → Answer → ℕ → System → System
goes_on phase given now s = record {
  gateway = (resume connected (lit "b") phase given now s.gateway).0;
  waiting =
      (lit "b", (resume connected (lit "b") phase given now s.gateway).1) ∷ host_joins.waiting;
  log = facts_of (lit "b") phase given now ++ s.log;
}

abbrev from_address : Str
from_address = lit "10.0.0.7"

abbrev settings_known : System
settings_known = goes_on (await_settings joining from_address) (settings_read true) 3 viewer_joins

abbrev password_known : System
password_known =
    goes_on (await_password joining from_address true) (password_checked true) 4 settings_known

abbrev approved : System
approved =
    goes_on (await_approval joining from_address true) (host_replied (answered true)) 5
      password_known

run : Reach started approved
unfolding server
run =
    next
      (next
        (next
          (next (next here (joins started (lit "a") handshake (asks_join (lit "host")) 1))
            (joins host_joins (lit "b") handshake (asks_join (lit "viewer")) 2))
          (resumes viewer_joins [] host_joins.waiting (lit "b")
            (await_settings joining from_address) (settings_read true) connected 3 refl))
        (resumes settings_known [] host_joins.waiting (lit "b")
          (await_password joining from_address true) (password_checked true) connected 4 refl))
      (resumes password_known [] host_joins.waiting (lit "b")
        (await_approval joining from_address true) (host_replied (answered true)) connected 5 refl)

abbrev bob : StoredPeer
bob = record {
  peer = record { client_id = lit "b"; role = viewer; display_name = some (lit "Bob") };
  last_seen_at = 5;
}

bob_stored : view approved.gateway.sessions (lit "desk-1") (lit "b") ≡ some bob
unfolding server
bob_stored = refl

viewer-Authorized_example : Authorized 120000 approved.log (lit "b") (lit "desk-1")
viewer-Authorized_example =
    viewer-Authorized default_config [] approved (lit "desk-1") (lit "b") bob (omega arith) run
      bob_stored refl
