-- ===== src/Discovery/Tests.antt =====
-- A small subnet, a scan that is ended twice, and two answers of one server.
use remote_controll_app.Prelude.{
  ℕ, ◌≡◌, ◌≤◌, refl, none, some, List, [], ◌∷◌, if◌then◌else◌, any, length,
}
use remote_controll_app.JsMap
use remote_controll_app.JsMap.{Distinct}
use remote_controll_app.Text.{str_eq, str_beq, lit, split, split_head, split_tail, join, is_digit}
use remote_controll_app.Value.{Value, string, number, object, end, field, as_record, lookup_field}
use remote_controll_app.Value.Numeric.{of_ℕ, is_integer, at_least, at_most, whole_within, equals}
use remote_controll_app.Discovery.{
  Response, Server, digits, create_discovered_server, merge_into, read_type, read_version,
  read_port, read_url, read_response,
}
use remote_controll_app.Discovery.Subnet.{
  number_from, read_part, parts_to_int, ipv4_to_int, int_to_ipv4, bit_and, bit_or, addresses_from,
  hosts_between, subnet_of, get_subnet_probe_addresses, length-get_subnet_probe_addresses-le,
}
use remote_controll_app.Discovery.Scan.{
  Event, message, error, bound_to, timed_out, close, resolve, start, on_message, on_error, finish,
  on_bound, handle, outputs, settles, ends, settles_once,
}

discovery : Unit {0}
unfolding JsMap.get JsMap.set str_beq split split_head split_tail join is_digit as_record
    lookup_field is_integer at_least at_most whole_within equals digits create_discovered_server
    merge_into read_type read_version read_port read_url read_response number_from read_part
    parts_to_int ipv4_to_int int_to_ipv4 bit_and bit_or addresses_from hosts_between subnet_of
    get_subnet_probe_addresses on_message on_error finish on_bound handle outputs
discovery = tt

subnet_test :
    get_subnet_probe_addresses (lit "192.168.1.9") (lit "255.255.255.252") 4
    ≡ lit "192.168.1.9" ∷ lit "192.168.1.10" ∷ []
unfolding discovery
subnet_test = refl

length-get_subnet_probe_addresses-le_example :
    length (get_subnet_probe_addresses (lit "192.168.1.9") (lit "255.255.255.252") 4) ≤ 4
length-get_subnet_probe_addresses-le_example =
    length-get_subnet_probe_addresses-le (lit "192.168.1.9") (lit "255.255.255.252") 4

abbrev answer : Value
answer = object (
    field (lit "type") (string (lit "remote-control.discovery.response")) (
      field (lit "version") (number (of_ℕ 1)) (
        field (lit "id") (string (lit "i"))
          (field (lit "name") (string (lit "pc")) (field (lit "port") (number (of_ℕ 47315)) end)))))

abbrev response : Response
response = record { id = lit "i"; name = lit "pc"; port = 47315; url = none }

answer_test : read_response answer ≡ some response
unfolding discovery
answer_test = refl

abbrev server : ℕ → Server
server time = record {
  id = lit "i";
  name = lit "pc";
  address = lit "10.0.0.2";
  port = 47315;
  url = lit "http://10.0.0.2:47315";
  last_seen = time;
}

abbrev unsorted : List Server → List Server
unsorted servers = servers

abbrev callbacks : List Event
callbacks =
    bound_to ∷ message (some response) (lit "10.0.0.2") 7 ∷ timed_out ∷ error ∷ timed_out ∷ []

callbacks_test :
    outputs unsorted [] (message (some response) (lit "10.0.0.2") 7 ∷ timed_out ∷ []) start
    ≡ close ∷ resolve (server 7 ∷ []) ∷ []
unfolding discovery
callbacks_test = refl

settles_once_example :
    settles (outputs unsorted (lit "10.0.0.255" ∷ []) callbacks start)
    ≡ (if any ends callbacks then 1 else 0)
settles_once_example = settles_once unsorted (lit "10.0.0.255" ∷ []) callbacks
