-- ===== src/Xray/Remap.antt =====
-- internal/xray/gate.go, remapInbounds and StartGate. A config is what encoding/json makes of it, as
-- far as these functions look: the object, its "inbounds", and of each inbound "listen" and "port".
-- The addresses of the open listeners are a list, the last one first. What net.Listen answers depends
-- on them: `listen` yields a port of a host, `take_over` tells whether an address can be had.
pub mod Open
pub mod Targets
use nunya_core.Common.{
  Try, gives, fails, ◌>>=◌, ℕ, ◌≡◌, Bool, true, false, not, ◌&&◌, Option, none, some, List, [], ◌∷◌,
  ◌++◌, ◌==◌, map, if◌then◌else◌,
}
use nunya_core.Common.{codes, eq_text}

-- A JSON value where a float64 is looked for: a number above 0 by its integer part, or not.
pub data PortValue : Type 0 where
  positive : ℕ → PortValue
  zero_or_less not_a_number : PortValue

pub record Inbound : Type 0 where
  pub listen : Option (List ℕ)
  pub port : PortValue

pub data InboundsValue : Type 0 where
  absent malformed : InboundsValue
  entries : List Inbound → InboundsValue

pub data Config : Type 0 where
  not_an_object : Config
  object : InboundsValue → Config

pub record Address : Type 0 where
  pub host : List ℕ
  pub port : ℕ

pub record Pair : Type 0 where
  pub gate : Address
  pub target : Address

pub data Failure : Type 0 where
  parse_config parse_inbounds no_inbounds no_fixed_port invalid_config : Failure
  no_free_port : List ℕ → Failure
  cannot_take_over : Address → Failure

-- `host, _ := inbound["listen"].(string)`, and the default for the empty string.
unfoldable pub host_of : Option (List ℕ) → List ℕ
host_of none = codes "127.0.0.1"
host_of (some []) = codes "127.0.0.1"
host_of (some (c ∷ cs)) = c ∷ cs

abbrev pub fixed_port : PortValue → Try Failure ℕ
fixed_port (positive n) = gives n
fixed_port zero_or_less = fails no_fixed_port
fixed_port not_a_number = fails no_fixed_port

-- The array that is read.
unfoldable pub inbounds_of : Config → Try Failure (List Inbound)
inbounds_of not_an_object = fails parse_config
inbounds_of (object absent) = fails no_inbounds
inbounds_of (object malformed) = fails parse_inbounds
inbounds_of (object (entries [])) = fails no_inbounds
inbounds_of (object (entries (i ∷ is))) = gives (i ∷ is)

unfoldable pub eq_address : Address → Address → Bool
unfolding eq_text
eq_address a b = eq_text a.host b.host && a.port == b.port

-- Listener.Close.
unfoldable pub close_one : Address → List Address → List Address
unfolding eq_address
close_one a [] = []
close_one a (b ∷ open_) = let rest = close_one a open_ in if eq_address b a then open_ else b ∷ rest

-- The loops that close the probes and the bridges.
unfoldable pub close_each : List Address → List Address → List Address
unfolding close_one
close_each [] open_ = open_
close_each (a ∷ rest) open_ = close_each rest (close_one a open_)

-- What the loop of remapInbounds yields, with its probes and the open listeners.
pub record Looped : Type 0 where
  pub result : Try Failure (List Pair × List Inbound)
  pub probes : List Address
  pub open_ : List Address

-- The pair and the inbound of one round, before those of the others.
abbrev pub with_pair : Pair → Inbound → Looped → Looped
with_pair p i r = record r { result = r.result >>= λ rest. gives (p ∷ rest.0, i ∷ rest.1) }

-- One round, with the port that the system gives, if it does, and the other rounds.
abbrev pub with_probe :
    Inbound → ℕ → List Address → List Address → Option ℕ → (Address → Looped) → Looped
with_probe i port probes open_ none next = record {
  result = fails (no_free_port (host_of i.listen));
  probes = probes;
  open_ = open_;
}
with_probe i port probes open_ (some moved) next =
    let target : Address = record { host = host_of i.listen; port = moved } in
    with_pair (record { gate = record { host = host_of i.listen; port = port }; target = target })
      (record i { port = positive moved }) (next target)

abbrev pub with_port :
    (List Address → List ℕ → Option ℕ)
    → Inbound
    → List Address
    → List Address
    → Try Failure ℕ
    → (Address → Looped)
    → Looped
with_port listen i probes open_ (fails e) next = record {
  result = fails e;
  probes = probes;
  open_ = open_;
}
with_port listen i probes open_ (gives port) next =
    with_probe i port probes open_ (listen open_ (host_of i.listen)) next

-- The deferred closing of the probes.
abbrev pub close_probes : Looped → Try Failure (List Pair × List Inbound) × List Address
close_probes r = (r.result, close_each r.probes r.open_)

module _ (listen : List Address → List ℕ → Option ℕ) where
  -- The loop over the inbounds. It yields the pairs, and the inbounds as they are encoded again.
  unfoldable pub remap_loop : List Address → List Address → List Inbound → Looped
  unfolding host_of
  remap_loop probes open_ [] = record { result = gives ([], []); probes = probes; open_ = open_ }
  remap_loop probes open_ (i ∷ is) =
      with_port listen i probes open_ (fixed_port i.port)
        (λ target. remap_loop (probes ++ (target ∷ [])) (target ∷ open_) is)

  abbrev pub after_inbounds :
      List Address
      → Try Failure (List Inbound)
      → Try Failure (List Pair × List Inbound) × List Address
  after_inbounds open_ (fails e) = (fails e, open_)
  after_inbounds open_ (gives is) = close_probes (remap_loop [] open_ is)

  -- With the listeners that are open afterwards.
  unfoldable pub remap_inbounds :
      List Address → Config → Try Failure (List Pair × List Inbound) × List Address
  unfolding inbounds_of remap_loop close_each
  remap_inbounds open_ config = after_inbounds open_ (inbounds_of config)

-- The loop of StartGate that takes over the ports, with the listeners of the bridges so far and all
-- that are open.
unfoldable pub listen_loop :
    (List Address → Address → Bool)
    → List Address
    → List Address
    → List Pair
    → Try Failure (List Pair) × List Address
unfolding close_each
listen_loop take_over bridges open_ [] = (gives [], open_)
listen_loop take_over bridges open_ (p ∷ ps) =
    let rest = listen_loop take_over (bridges ++ (p.gate ∷ [])) (p.gate ∷ open_) ps in
    if take_over open_ p.gate
    then (rest.0 >>= λ taken. gives (p ∷ taken), rest.1)
    else (fails (cannot_take_over p.gate), close_each bridges open_)

abbrev pub after_remap :
    (List Inbound → Bool)
    → (List Address → Address → Bool)
    → Try Failure (List Pair × List Inbound) × List Address
    → Try Failure (List Pair) × List Address
after_remap check take_over (fails e, open_) = (fails e, open_)
after_remap check take_over (gives (pairs, rewritten), open_) =
    if check rewritten then listen_loop take_over [] open_ pairs else (fails invalid_config, open_)

-- StartGate: the bridges of the gate, and the open listeners. `check` is CheckXrayConfig of the
-- rewritten config.
unfoldable pub start_gate :
    (List Address → List ℕ → Option ℕ)
    → (List Inbound → Bool)
    → (List Address → Address → Bool)
    → List Address
    → Config
    → Try Failure (List Pair) × List Address
unfolding remap_inbounds listen_loop
start_gate listen check take_over open_ config =
    after_remap check take_over (remap_inbounds listen open_ config)
