-- ===== src/Discovery.antt =====
-- apps/desktop/src/main/discoveryClient.ts: how the desktop finds servers. Sockets, the network
-- interfaces, `JSON.parse` and the order of names are parameters.
pub mod Subnet
pub mod Scan
pub mod Merging
mod Tests
use remote_controll_app.Prelude.{
  ℕ, zero, suc, ◌+◌, ◌/◌, ◌%◌, Bool, true, false, Option, none, some, List, [], ◌∷◌, ◌++◌,
  if◌then◌else◌, leb, ltb, length,
}
use remote_controll_app.JsMap
use remote_controll_app.JsMap.{JsMap}
use remote_controll_app.Text.{Str, str_eq, str_beq, lit}
use remote_controll_app.Value.{
  Value, undefined, string, number, Fields, as_record, as_string, lookup_field,
}
use remote_controll_app.Value.Numeric.{Number, whole_within, equals}
use remote_controll_app.Signaling.Payloads.{◌>>=◌}

-- `${n}` for a number of at most five digits, as ports and the parts of an address are.
unfoldable pub digits : ℕ → ℕ → Str
digits zero n = []
digits (suc places) n =
    let front = digits places (n / 10) in
    if leb n 9 then (b'0' + n) ∷ [] else front ++ (b'0' + n % 10) ∷ []

abbrev pub decimal : ℕ → Str
decimal n = digits 5 n

-- `DiscoveryResponse`
pub record Response : Type 0 where
  pub id : Str
  pub name : Str
  pub port : ℕ
  pub url : Option Str

-- `DiscoveredServer`
pub record Server : Type 0 where
  pub id : Str
  pub name : Str
  pub address : Str
  pub port : ℕ
  pub url : Str
  pub last_seen : ℕ

unfoldable pub read_type : Value → Option Str
read_type (string s) = if str_beq s (lit "remote-control.discovery.response") then some s else none
read_type _ = none

unfoldable pub read_version : Value → Option Number
read_version (number n) = if equals n 1 then some n else none
read_version _ = none

-- A whole number from 1 to 65535.
unfoldable pub read_port : Value → Option ℕ
read_port (number n) = whole_within 1 65535 n
read_port _ = none

-- The URL may be left out: the outer option is the test.
unfoldable pub read_url : Value → Option (Option Str)
read_url undefined = some none
read_url (string s) = some (some s)
read_url _ = none

-- `isDiscoveryResponse` on what was parsed, handing on the response. On `null` the test throws, which
-- its callers take for no response.
unfoldable pub read_response : Value → Option Response
read_response parsed = do
  fields ← as_record parsed
  kind ← read_type (lookup_field (lit "type") fields)
  version ← read_version (lookup_field (lit "version") fields)
  id ← as_string (lookup_field (lit "id") fields)
  name ← as_string (lookup_field (lit "name") fields)
  port ← read_port (lookup_field (lit "port") fields)
  url ← read_url (lookup_field (lit "url") fields)
  some (record { id = id; name = name; port = port; url = url })

-- `response.url || ...`
abbrev pub url_or : Option Str → Str → Str
url_or none fallback = fallback
url_or (some []) fallback = fallback
url_or (some (c ∷ s)) fallback = c ∷ s

-- `createDiscoveredServer`
unfoldable pub create_discovered_server : Response → Str → ℕ → Server
unfolding digits
create_discovered_server r address last_seen = record {
  id = r.id;
  name = r.name;
  address = address;
  port = r.port;
  url = url_or r.url (lit "http://" ++ address ++ lit ":" ++ decimal r.port);
  last_seen = last_seen;
}

-- The loop of `mergeDiscoveredServers`.
unfoldable pub merge_into : JsMap Str Server → List Server → JsMap Str Server
merge_into merged [] = merged
merge_into merged (s ∷ servers) = merge_into (JsMap.set s.url s merged) servers

abbrev pub values_of : JsMap Str Server → List Server
values_of [] = []
values_of ((key, s) ∷ m) = s ∷ values_of m

-- `mergeDiscoveredServers`; `sort` orders by `localeCompare` of the names.
unfoldable pub merge_discovered_servers : (List Server → List Server) → List Server → List Server
unfolding merge_into
merge_discovered_servers sort servers = sort (values_of (merge_into [] servers))
