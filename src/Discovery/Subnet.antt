-- ===== src/Discovery/Subnet.antt =====
-- The addresses of a subnet that are probed: `getSubnetProbeAddresses` and the conversions between
-- addresses and 32-bit numbers of apps/desktop/src/main/discoveryClient.ts.
use remote_controll_app.Prelude.{
  ℕ, zero, suc, ◌+◌, ◌-◌, ◌*◌, ◌/◌, ◌%◌, ◌^◌, ◌≤◌, ◌≡◌, refl, not, ◌&&◌, ◌||◌, Option, none, some,
  List, [], ◌∷◌, arith, if◌then◌else◌, leb, ltb, nat_beq, length, all, Bool-cases, inl, inr,
}
use remote_controll_app.Text.{Str, is_empty, is_digit, split, join}
use remote_controll_app.Signaling.Payloads.{◌>>=◌}
use remote_controll_app.Discovery.{decimal}

-- `Number(part)` of a text of digits, after what was read before.
unfoldable pub number_from : ℕ → Str → ℕ
number_from n [] = n
number_from n (c ∷ s) = number_from (10 * n + (c - b'0')) s

-- `/^\d+$/` and the range.
unfoldable pub read_part : Str → Option ℕ
unfolding is_digit number_from
read_part part =
    if not (is_empty part) && all is_digit part && leb (number_from 0 part) 255
    then some (number_from 0 part)
    else none

unfoldable pub parts_to_int : List Str → Option ℕ
parts_to_int (a ∷ b ∷ c ∷ d ∷ []) = do
  p ← read_part a
  q ← read_part b
  r ← read_part c
  s ← read_part d
  some (p * 2 ^ 24 + q * 2 ^ 16 + r * 2 ^ 8 + s)
parts_to_int _ = none

-- `ipv4ToInt`; the parts are bytes, so `|` of the shifted parts is their sum.
unfoldable pub ipv4_to_int : Str → Option ℕ
unfolding parts_to_int split
ipv4_to_int value = parts_to_int (split b'.' value)

-- `intToIpv4`
unfoldable pub int_to_ipv4 : ℕ → Str
unfolding join
int_to_ipv4 value = join b'.' (
    decimal (value / 2 ^ 24 % 256)
    ∷ decimal (value / 2 ^ 16 % 256)
    ∷ decimal (value / 2 ^ 8 % 256)
    ∷ decimal (value % 256)
    ∷ [])

-- `a & b` and `a | b` of the lowest `width` bits.
unfoldable pub bit_and : ℕ → ℕ → ℕ → ℕ
bit_and zero a b = 0
bit_and (suc width) a b = a % 2 * (b % 2) + 2 * bit_and width (a / 2) (b / 2)

unfoldable pub bit_or : ℕ → ℕ → ℕ → ℕ
bit_or zero a b = 0
bit_or (suc width) a b =
    (if nat_beq (a % 2 + b % 2) 0 then 0 else 1) + 2 * bit_or width (a / 2) (b / 2)

-- The loop from `current` on.
unfoldable pub addresses_from : ℕ → ℕ → List Str
unfolding int_to_ipv4
addresses_from current zero = []
addresses_from current (suc left) =
    int_to_ipv4 (current % 2 ^ 32) ∷ addresses_from (suc current) left

-- The addresses between the network's and the broadcast address, or these where nothing is between.
unfoldable pub hosts_between : ℕ → ℕ → ℕ → List Str
unfolding addresses_from
hosts_between network broadcast max_hosts =
    let usable = broadcast - network - 1 in
    let first = if ltb 0 usable then network + 1 else network in
    let last = if ltb 0 usable then broadcast - 1 else broadcast in
    let host_count = if leb first last then last - first + 1 else 0 in
    if nat_beq host_count 0 || ltb max_hosts host_count then [] else addresses_from first host_count

unfoldable pub subnet_of : Option ℕ → Option ℕ → ℕ → List Str
unfolding hosts_between bit_and bit_or
subnet_of (some address) (some mask) max_hosts =
    let network = bit_and 32 address mask in
    if leb max_hosts 0
    then []
    else hosts_between network (bit_or 32 network (2 ^ 32 - 1 - mask)) max_hosts
subnet_of _ _ max_hosts = []

unfoldable pub get_subnet_probe_addresses : Str → Str → ℕ → List Str
unfolding ipv4_to_int subnet_of
get_subnet_probe_addresses address netmask max_hosts =
    subnet_of (ipv4_to_int address) (ipv4_to_int netmask) max_hosts

length-addresses_from : (current left : ℕ) → length (addresses_from current left) ≡ left
unfolding addresses_from
length-addresses_from current zero = refl
length-addresses_from current (suc left) = ground (arith, length-addresses_from (suc current) left)

length-hosts_between-le :
    (network broadcast max_hosts : ℕ)
    → length (hosts_between network broadcast max_hosts) ≤ max_hosts
unfolding hosts_between
length-hosts_between-le network broadcast max_hosts = ground (
  arith,
  length-addresses_from (network + 1) (broadcast - 1 - (network + 1) + 1),
  length-addresses_from network (broadcast - network + 1),
)

length-subnet_of-le :
    (a m : Option ℕ) (max_hosts : ℕ) → length (subnet_of a m max_hosts) ≤ max_hosts
unfolding subnet_of
length-subnet_of-le (some a) (some m) max_hosts = elim (Bool-cases (leb max_hosts 0)) [
  | inl y ↦ rw y (omega arith)
  | inr n ↦ rw n (
      length-hosts_between-le (bit_and 32 a m) (bit_or 32 (bit_and 32 a m) (2 ^ 32 - 1 - m))
        max_hosts)
]
length-subnet_of-le (some a) none max_hosts = omega arith
length-subnet_of-le none m max_hosts = omega arith

-- Whatever the address and the mask, no more hosts are probed than allowed.
pub length-get_subnet_probe_addresses-le :
    (address netmask : Str) (max_hosts : ℕ)
    → length (get_subnet_probe_addresses address netmask max_hosts) ≤ max_hosts
unfolding get_subnet_probe_addresses
length-get_subnet_probe_addresses-le address netmask max_hosts =
    length-subnet_of-le (ipv4_to_int address) (ipv4_to_int netmask) max_hosts
