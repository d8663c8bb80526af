-- ===== src/Discovery/Merging.antt =====
-- What the list of servers is, and what a response holds: `mergeDiscoveredServers` and
-- `isDiscoveryResponse` of apps/desktop/src/main/discoveryClient.ts.
use remote_controll_app.Prelude.{
  ℕ, ◌≤◌, ◌≡◌, refl, Option, none, some, List, [], ◌∷◌, arith, if◌then◌else◌,
}
use remote_controll_app.JsMap
use remote_controll_app.JsMap.{JsMap, Distinct, get-set, set-Distinct}
use remote_controll_app.Text.{Str, str_eq, str_beq, lit}
use remote_controll_app.Value.{Value, number, as_record, as_string, lookup_field}
use remote_controll_app.Value.Numeric.{whole_within_bounds}
use remote_controll_app.Signaling.Payloads.Bounds.{bind-eq-some, of_some}
use remote_controll_app.Discovery.{
  Response, Server, merge_into, read_response, read_type, read_version, read_port, read_url,
}

abbrev pub first_some {ℓ} : {A : Type ℓ} → Option A → Option A → Option A
first_some none o = o
first_some (some a) o = some a

-- The last server of the list with the URL.
abbrev pub last_with : Str → List Server → Option Server
last_with url [] = none
last_with url (s ∷ servers) =
    first_some (last_with url servers) (if str_beq s.url url then some s else none)

get-merge_into :
    (url : Str) (servers : List Server) (m : JsMap Str Server)
    → JsMap.get url (merge_into m servers) ≡ first_some (last_with url servers) (JsMap.get url m)
unfolding merge_into
get-merge_into url [] m = refl
get-merge_into url (s ∷ servers) m =
    ground (arith, get-merge_into url servers (JsMap.set s.url s m), get-set url s.url s m)

merge_into-Distinct :
    (servers : List Server) (m : JsMap Str Server) → Distinct m → Distinct (merge_into m servers)
unfolding merge_into
merge_into-Distinct [] m d = d
merge_into-Distinct (s ∷ servers) m d = merge_into-Distinct servers _ (set-Distinct s.url s m d)

-- The merged servers hold each URL once, and for each the last server of the list that has it, the
-- answers by HTTP being behind those by UDP.
pub merge_into-last :
    (servers : List Server)
    → Distinct (merge_into [] servers)
      × ((url : Str) → JsMap.get url (merge_into [] servers) ≡ last_with url servers)
unfolding JsMap.get
merge_into-last servers =
    (merge_into-Distinct servers [] tt, λ url. ground (arith, get-merge_into url servers []))

read_port_bounds : (v : Value) {n : ℕ} → read_port v ≡ some n → (1 ≤ n) × (n ≤ 65535)
unfolding read_port
read_port_bounds (number n) h = whole_within_bounds 1 65535 n h
read_port_bounds v h = cc h

abbrev pub HasPort : Response → Type 0
HasPort r = (1 ≤ r.port) × (r.port ≤ 65535)

-- A response that is accepted names a port from 1 to 65535.
pub read_response-HasPort : (v : Value) (r : Response) → read_response v ≡ some r → HasPort r
unfolding read_response
read_response-HasPort v r h =
    let (fields, _, h1) = bind-eq-some (as_record v) _ h in
    let (kind, _, h2) = bind-eq-some (read_type _) _ h1 in
    let (version, _, h3) = bind-eq-some (read_version _) _ h2 in
    let (id, _, h4) = bind-eq-some (as_string (lookup_field (lit "id") fields)) _ h3 in
    let (name, _, h5) = bind-eq-some (as_string (lookup_field (lit "name") fields)) _ h4 in
    let (port, e, h6) = bind-eq-some (read_port _) _ h5 in
    let (url, _, h7) = bind-eq-some (read_url _) _ h6 in of_some HasPort h7 (read_port_bounds _ e)
