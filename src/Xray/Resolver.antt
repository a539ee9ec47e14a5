-- ===== src/Xray/Resolver.antt =====
-- internal/xraydns/resolver.go: the DNS client of the Xray instances. A context of the box has what
-- the resolver looks up in it; what the router answers to a query is an argument.
pub mod Queried
use nunya_core.Common.{
  ℕ, ◌+◌, Bool, true, false, not, ◌&&◌, ◌||◌, Option, none, some, List, [], ◌∷◌, ◌++◌, ◌==◌,
  if◌then◌else◌, map, length,
}

pub data Strategy : Type 0 where
  as_is : Strategy
  prefer_ipv4 : Strategy
  prefer_ipv6 : Strategy
  ipv4_only : Strategy
  ipv6_only : Strategy

pub record IpOption : Type 0 where
  pub ipv4_enable : Bool
  pub ipv6_enable : Bool

-- The router is registered or not; the managers are registered or not, with the transport dns-direct,
-- if it is loaded, and the strategy of the default resolver.
pub record BoxContext : Type 0 where
  pub has_router : Bool
  pub transport_manager : Option (Option ℕ)
  pub network_manager : Option Strategy

pub record Query : Type 0 where
  pub transport : Option ℕ
  pub strategy : Strategy

pub data Addr : Type 0 where
  v4 : ℕ → ℕ → ℕ → ℕ → Addr
  v6 : List ℕ → Addr

-- An address of 16 bytes that stands for one of 4.
unfoldable pub unmapped : List ℕ → Option (List ℕ)
unmapped (a ∷ b ∷ c ∷ d ∷ e ∷ f ∷ g ∷ h ∷ i ∷ j ∷ k ∷ l ∷ rest) =
    if a == 0
      && b == 0
      && c == 0
      && d == 0
      && e == 0
      && f == 0
      && g == 0
      && h == 0
      && i == 0
      && j == 0
      && k == 255
      && l == 255
    then some rest
    else none
unmapped _ = none

abbrev pub bytes_or : List ℕ → Option (List ℕ) → List ℕ
bytes_or bytes none = bytes
bytes_or bytes (some last) = last

-- Unmap and AsSlice.
abbrev pub slice : Addr → List ℕ
slice (v4 a b c d) = a ∷ b ∷ c ∷ d ∷ []
slice (v6 bytes) = bytes_or bytes (unmapped bytes)

pub data LookupError : Type 0 where
  empty_response : LookupError
  not_up : LookupError
  no_router : LookupError
  lookup_failed : LookupError

abbrev pub strategy_for : IpOption → Strategy → Strategy
strategy_for option resolver =
    if option.ipv4_enable && option.ipv6_enable
    then resolver
    else if option.ipv4_enable
    then ipv4_only
    else ipv6_only

abbrev pub resolver_strategy : BoxContext → Strategy
resolver_strategy ctx = elim ctx.network_manager [ none ↦ as_is | some strategy ↦ strategy ]

-- directTransport, with the field `transport` before; it is the field afterwards, too.
abbrev pub from_manager : Option (Option ℕ) → Option ℕ
from_manager none = none
from_manager (some loaded) = loaded

abbrev pub direct_transport : BoxContext → Option ℕ → Option ℕ
direct_transport ctx (some t) = some t
direct_transport ctx none = from_manager ctx.transport_manager

pub record Lookup : Type 0 where
  pub error : Option LookupError
  pub ips : List (List ℕ)
  pub query : Option Query

abbrev pub error_of : LookupError → Option Query → Lookup
error_of e q = record { error = some e; ips = []; query = q }

abbrev pub answered : Query → Option (List Addr) → Lookup
answered q none = error_of lookup_failed (some q)
answered q (some []) = error_of empty_response (some q)
answered q (some (a ∷ addresses)) = record {
  error = none;
  ips = map slice (a ∷ addresses);
  query = some q;
}

abbrev pub query_of : IpOption → BoxContext → Option ℕ → Query
query_of option ctx transport = record {
  transport = transport;
  strategy = strategy_for option (resolver_strategy ctx);
}

abbrev pub look_in :
    IpOption → (Query → Option (List Addr)) → BoxContext → Option ℕ → Lookup × Option ℕ
look_in option answer ctx transport =
    if not ctx.has_router then (error_of no_router none, transport) else (
      answered (query_of option ctx (direct_transport ctx transport))
          (answer (query_of option ctx (direct_transport ctx transport))),
      direct_transport ctx transport,
    )

abbrev pub look_up :
    IpOption → (Query → Option (List Addr)) → Option BoxContext → Option ℕ → Lookup × Option ℕ
look_up option answer none transport = (error_of not_up none, transport)
look_up option answer (some ctx) transport = look_in option answer ctx transport

-- LookupIP, with the field `transport`; the TTL is 0 in every case.
unfoldable pub lookup_ip :
    IpOption → (Query → Option (List Addr)) → Option BoxContext → Option ℕ → Lookup × Option ℕ
unfolding unmapped
lookup_ip option answer provided transport =
    if not option.ipv4_enable && not option.ipv6_enable
    then (error_of empty_response none, transport)
    else look_up option answer provided transport
