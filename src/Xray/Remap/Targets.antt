-- ===== src/Xray/Remap/Targets.antt =====
-- Where a gate listens and where it forwards to.
use nunya_core.Common.{
  Try, gives, fails, ◌>>=◌, ℕ, suc, ◌+◌, ◌≡◌, ◌≢◌, refl, ap, sym, ◌∙◌, subst, Bool, true, false,
  Option, none, some, List, [], ◌∷◌, ◌++◌, map, arith, length, All, if◌then◌else◌,
}
use nunya_core.Xray.Remap.{
  Failure, invalid_config, PortValue, positive, Inbound, Config, Address, Pair, Looped, host_of,
  fixed_port, inbounds_of, with_probe, with_port, remap_loop, after_inbounds, remap_inbounds,
  after_remap, listen_loop, start_gate,
}
use nunya_core.Xray.Remap.Open.{
  opens, remap_inbounds-opens, Taken, ListenPost, listen_loop-ListenPost,
}

-- The original address of an inbound: where clients dial.
abbrev gate_of : Inbound → PortValue → List Address
gate_of i (positive n) = record { host = host_of i.listen; port = n } ∷ []
gate_of i p = []

pub gates_of : List Inbound → List Address
gates_of [] = []
gates_of (i ∷ is) = gate_of i i.port ++ gates_of is

-- An address differs from all of a list.
abbrev pub Absent : Address → List Address → Type 0
Absent a [] = Unit {0}
Absent a (b ∷ bs) = (a ≢ b) × Absent a bs

abbrev pub AllDistinct : List Address → Type 0
AllDistinct [] = Unit {0}
AllDistinct (a ∷ rest) = Absent a rest × AllDistinct rest

abbrev pub gates : List Pair → List Address
gates = map (λ p. p.gate)

abbrev pub targets : List Pair → List Address
targets = map (λ p. p.target)

-- The rewritten inbounds listen where the pairs point.
abbrev pub moved_to : List Inbound → List Address
moved_to is = gates_of is

record Remapped (held : List Address) (is : List Inbound) (pairs : List Pair)
    (rewritten : List Inbound) : Type 0 where
  same_gates : gates pairs ≡ gates_of is
  same_targets : gates_of rewritten ≡ targets pairs
  distinct : AllDistinct (targets pairs)
  apart : All (λ t. Absent t held) (targets pairs)
  each : length pairs ≡ length is

fixed_port-eq-gives : (v : PortValue) (n : ℕ) → fixed_port v ≡ gives n → v ≡ positive n
fixed_port-eq-gives v n e = ground arith

Absent-sym : (a b : Address) → a ≢ b → b ≢ a
Absent-sym a b h e = h (sym e)

apart_tail :
    (t : Address) (held ts : List Address)
    → All (λ u. Absent u (t ∷ held)) ts
    → Absent t ts × All (λ u. Absent u held) ts
apart_tail t held [] h = (tt, tt)
apart_tail t held (u ∷ ts) h =
    let (x, y) = apart_tail t held ts h.1 in ((Absent-sym u t h.0.0, x), (h.0.1, y))

abbrev ResultPost : List Address → List Inbound → Try Failure (List Pair × List Inbound) → Type 0
ResultPost held is (fails e) = Unit
ResultPost held is (gives p) = Remapped held is p.0 p.1

pair-ResultPost :
    (held : List Address) (i : Inbound) (is : List Inbound) (port moved : ℕ)
    (r : Try Failure (List Pair × List Inbound))
    → let target : Address = record { host = host_of i.listen; port = moved } in
      fixed_port i.port ≡ gives port
      → Absent target held
      → ResultPost (target ∷ held) is r
      → ResultPost held (i ∷ is) (
          r >>= λ rest. gives (
            record { gate = record { host = host_of i.listen; port = port }; target = target }
                ∷ rest.0,
            record i { port = positive moved } ∷ rest.1,
          ))
unfolding gates_of
pair-ResultPost held i is port moved (fails x) e new r = tt
pair-ResultPost held i is port moved (gives rest) e new r =
    let target : Address = record { host = host_of i.listen; port = moved } in
    let (behind, others) = apart_tail target held (targets rest.0) r.apart in
    let here = ap (gate_of i) (fixed_port-eq-gives i.port port e) in
    record {
      same_gates =
          ap (◌∷◌ (record { host = host_of i.listen; port = port })) r.same_gates
          ∙ ap (λ as_. as_ ++ gates_of is) (sym here);
      same_targets = ap (◌∷◌ target) r.same_targets;
      distinct = (behind, r.distinct);
      apart = (new, others);
      each = ap suc r.each;
    }

module _ (listen : List Address → List ℕ → Option ℕ)
    -- The system gives out no port that is held open on that host.
    (fresh : (held : List Address) (host : List ℕ) (p : ℕ)
      → listen held host ≡ some p
      → Absent (record { host = host; port = p }) held) where
  probe-ResultPost :
      (probes open_ : List Address) (i : Inbound) (is : List Inbound) (port : ℕ) (o : Option ℕ)
      (next : Address → Looped)
      → fixed_port i.port ≡ gives port
      → listen open_ (host_of i.listen) ≡ o
      → ((t : Address) → ResultPost (t ∷ open_) is (next t).result)
      → ResultPost open_ (i ∷ is) (with_probe i port probes open_ o next).result
  probe-ResultPost probes open_ i is port none next e l h = tt
  probe-ResultPost probes open_ i is port (some moved) next e l h =
      let target : Address = record { host = host_of i.listen; port = moved } in
      pair-ResultPost open_ i is port moved (next target).result e
        (fresh open_ (host_of i.listen) moved l) (h target)

  port-ResultPost :
      (probes open_ : List Address) (i : Inbound) (is : List Inbound) (o : Try Failure ℕ)
      (next : Address → Looped)
      → fixed_port i.port ≡ o
      → ((t : Address) → ResultPost (t ∷ open_) is (next t).result)
      → ResultPost open_ (i ∷ is) (with_port listen i probes open_ o next).result
  port-ResultPost probes open_ i is (fails x) next e h = tt
  port-ResultPost probes open_ i is (gives port) next e h =
      probe-ResultPost probes open_ i is port (listen open_ (host_of i.listen)) next e refl h

  remap_loop-ResultPost :
      (probes open_ : List Address) (is : List Inbound)
      → ResultPost open_ is (remap_loop listen probes open_ is).result
  unfolding remap_loop gates_of
  remap_loop-ResultPost probes open_ [] = record {
    same_gates = refl;
    same_targets = refl;
    distinct = tt;
    apart = tt;
    each = refl;
  }
  remap_loop-ResultPost probes open_ (i ∷ is) =
      port-ResultPost probes open_ i is (fixed_port i.port) _ refl
        (λ t. remap_loop-ResultPost (probes ++ (t ∷ [])) (t ∷ open_) is)

  after-Remapped :
      (open_ : List Address) (o : Try Failure (List Inbound)) (p : List Pair × List Inbound)
      → (after_inbounds listen open_ o).0 ≡ gives p
      → (is : List Inbound) × (o ≡ gives is) × Remapped open_ is p.0 p.1
  after-Remapped open_ (fails x) p e = cc
  after-Remapped open_ (gives is) p e =
      (is, refl, subst (ResultPost open_ is) e (remap_loop-ResultPost [] open_ is))

  -- If the system gives out no port that is held open on the same host, and remapInbounds returns
  -- pairs and rewritten inbounds, then there is one pair for each inbound of the config, in order:
  -- its gate is where the inbound listened, its target where the rewritten inbound listens, and no
  -- two targets are the same address.
  pub remap_inbounds-Remapped :
      (open_ : List Address) (config : Config) (pairs : List Pair) (rewritten : List Inbound)
      → (remap_inbounds listen open_ config).0 ≡ gives (pairs, rewritten)
      → (is : List Inbound) × (inbounds_of config ≡ gives is)
        × (length pairs ≡ length is)
        × (gates pairs ≡ gates_of is)
        × (gates_of rewritten ≡ targets pairs)
        × AllDistinct (targets pairs)
  unfolding remap_inbounds
  remap_inbounds-Remapped open_ config pairs rewritten e =
      let (is, e₁, r) = after-Remapped open_ (inbounds_of config) (pairs, rewritten) e in
      (is, e₁, r.each, r.same_gates, r.same_targets, r.distinct)

-- A contract for StartGate's result and the open listeners, with what remapInbounds has yielded.
abbrev pub GatePost :
    (List Inbound → Bool)
    → (List Address → Address → Bool)
    → List Address
    → Try Failure (List Pair × List Inbound) × List Address
    → Try Failure (List Pair) × List Address
    → Type 0
GatePost check take_over before remapped (fails e, opened) =
    (a : Address) → opens a opened ≡ opens a before
GatePost check take_over before remapped (gives pairs, opened) =
    (rewritten : List Inbound) × (remapped.0 ≡ gives (pairs, rewritten))
    × (check rewritten ≡ true)
    × ((a : Address) → opens a opened ≡ opens a (gates pairs) + opens a before)
    × Taken take_over remapped.1 pairs

module _ (check : List Inbound → Bool) (take_over : List Address → Address → Bool)
    (before open_ : List Address) (same : (a : Address) → opens a open_ ≡ opens a before) where
  listened-GatePost :
      (pairs : List Pair) (rewritten : List Inbound) (r : Try Failure (List Pair) × List Address)
      → check rewritten ≡ true
      → ListenPost take_over before [] open_ pairs r
      → GatePost check take_over before (gives (pairs, rewritten), open_) r
  listened-GatePost pairs rewritten (gives qs, ls) c (e, n, taken) = (
    rewritten,
    ap (λ (x : List Pair). gives (x, rewritten)) (sym e),
    c,
    λ a. n a ∙ omega (arith, same a, ap (λ (x : List Pair). opens a (gates x)) e),
    subst (Taken take_over open_) (sym e) taken,
  )
  listened-GatePost pairs rewritten (fails x, ls) c h = h

  checked-GatePost :
      (pairs : List Pair) (rewritten : List Inbound) (b : Bool)
      → check rewritten ≡ b
      → GatePost check take_over before
          (gives (pairs, rewritten), open_)
          (if b then listen_loop take_over [] open_ pairs else (fails invalid_config, open_))
  unfolding opens
  checked-GatePost pairs rewritten true c =
      listened-GatePost pairs rewritten _ c
        (listen_loop-ListenPost take_over before [] open_ pairs (λ a. omega (arith, same a)))
  checked-GatePost pairs rewritten false c = same

  remapped-GatePost :
      (o : Try Failure (List Pair × List Inbound))
      → GatePost check take_over before (o, open_) (after_remap check take_over (o, open_))
  remapped-GatePost (fails e) = same
  remapped-GatePost (gives (pairs, rewritten)) =
      checked-GatePost pairs rewritten (check rewritten) refl

-- For all answers of the system and of the config check, whatever listeners are open before: after
-- a StartGate that fails the same ones are open, counted by address, so that it has closed the
-- probes and the bridges that it opened. One that succeeds has the pairs of remapInbounds as its
-- bridges, in order, and their rewritten config passed the check; each gate could be taken over when
-- it was its turn, with the probes closed; and exactly the listeners at the gates are open besides
-- those from before.
pub start_gate-GatePost :
    (listen : List Address → List ℕ → Option ℕ) (check : List Inbound → Bool)
    (take_over : List Address → Address → Bool) (open_ : List Address) (config : Config)
    → GatePost check take_over open_
        (remap_inbounds listen open_ config)
        (start_gate listen check take_over open_ config)
unfolding start_gate
start_gate-GatePost listen check take_over open_ config =
    remapped-GatePost check take_over open_ (remap_inbounds listen open_ config).1
      (remap_inbounds-opens listen open_ config) (remap_inbounds listen open_ config).0
