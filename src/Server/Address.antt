-- ===== src/Server/Address.antt =====
-- The address of a client: `getSinAddr`, `getSinPort` and `getIpAddr`, of
-- src/server/include/project/server/http/http_server.h, and what `acceptConnection`, of
-- src/server/src/http/http_server.cc, makes of them. `inet_ntop` is a parameter, which gives `none`
-- for a null pointer. A number of 16 bits has its bytes in the order of the machine.
use https_http_server.Shared.{
  ℕ, ◌+◌, ◌*◌, ◌<◌, ◌^◌, ◌≡◌, refl, Bool, true, false, Text, Option, none, some, arith, [], ◌/◌,
  ◌%◌,
}
use https_http_server.Connection.Descriptor.{ℤ}
use https_http_server.Server.Intake.{Peer}

-- `sockaddr`: the two families that are told apart, with the bytes of the port, as they arrive, and
-- those of the address; and the others.
pub data SockAddr : Type 0 where
  inet inet6 : ℕ → ℕ → Text → SockAddr
  other_family : SockAddr

-- The families, as `inet_ntop` takes them.
pub data Family : Type 0 where
  af_inet af_inet6 other : Family

unfoldable pub family : SockAddr → Family
family (inet b c bytes) = af_inet
family (inet6 b c bytes) = af_inet6
family other_family = other

-- `getSinAddr`; `none` is a null pointer.
unfoldable pub get_sin_addr : SockAddr → Option Text
get_sin_addr (inet b c bytes) = some bytes
get_sin_addr (inet6 b c bytes) = some bytes
get_sin_addr other_family = none

-- A number of 16 bits that stands in memory as two bytes, on a machine that has the low byte first, or
-- the high one.
abbrev pub load : Bool → ℕ → ℕ → ℕ
load true b c = b + 256 * c
load false b c = 256 * b + c

-- `getSinPort`
unfoldable pub get_sin_port : Bool → SockAddr → ℕ
get_sin_port low_first (inet b c bytes) = load low_first b c
get_sin_port low_first (inet6 b c bytes) = load low_first b c
get_sin_port low_first other_family = 0

-- `ntohs`: the bytes are exchanged where the low byte stands first.
abbrev pub ntohs : Bool → ℕ → ℕ
ntohs true n = 256 * (n % 256) + n / 256
ntohs false n = n

module _ (inet_ntop : Family → Option Text → Option Text) where
  -- `getIpAddr`
  unfoldable pub get_ip_addr : SockAddr → Text
  unfolding get_sin_addr family
  get_ip_addr addr = elim (inet_ntop (family addr) (get_sin_addr addr)) [ none ↦ [] | some t ↦ t ]

  -- What `acceptConnection` takes from an `accept` that has succeeded.
  unfoldable pub accepted_peer : Bool → ℤ → SockAddr → Peer
  unfolding get_ip_addr get_sin_port
  accepted_peer low_first sockfd addr = record {
    sockfd = sockfd;
    ip = get_ip_addr addr;
    port = ntohs low_first (get_sin_port low_first addr);
  }

  -- The two bytes of the port, the high one first, and 0 for another family.
  abbrev pub port_number : SockAddr → ℕ
  port_number (inet b c bytes) = 256 * b + c
  port_number (inet6 b c bytes) = 256 * b + c
  port_number other_family = 0

  abbrev pub HasBytes : SockAddr → Type 0
  HasBytes (inet b c bytes) = (b < 256) × (c < 256)
  HasBytes (inet6 b c bytes) = (b < 256) × (c < 256)
  HasBytes other_family = Unit

  swapped :
      (b c : ℕ)
      → b < 256
      → c < 256
      → 256 * ((b + 256 * c) % 256) + (b + 256 * c) / 256 ≡ 256 * b + c
  swapped b c hb hc = omega arith

  -- The port of a client is the number that its two bytes are, the high one first, whatever the order
  -- of bytes of the machine, and it is below 65536; and a client of another family than the two has the
  -- port 0.
  pub port-accepted_peer :
      (low_first : Bool) (sockfd : ℤ) (addr : SockAddr)
      → HasBytes addr
      → ((accepted_peer low_first sockfd addr).port ≡ port_number addr)
        × (port_number addr < 2 ^ 16)
  unfolding accepted_peer get_sin_port
  port-accepted_peer true sockfd (inet b c bytes) (hb, hc) = (swapped b c hb hc, omega arith)
  port-accepted_peer false sockfd (inet b c bytes) (hb, hc) = (refl, omega arith)
  port-accepted_peer true sockfd (inet6 b c bytes) (hb, hc) = (swapped b c hb hc, omega arith)
  port-accepted_peer false sockfd (inet6 b c bytes) (hb, hc) = (refl, omega arith)
  port-accepted_peer true sockfd other_family h = (omega arith, omega arith)
  port-accepted_peer false sockfd other_family h = (refl, omega arith)
