-- ===== src/Xray/Resolver/Queried.antt =====
-- What the lookups of a resolver ask, one after another.
use nunya_core.Common.{
  ℕ, ◌≡◌, ◌⊎◌, inl, inr, refl, sym, subst, Bool, true, false, not, ◌&&◌, ◌||◌, Option, none, some,
  List, [], ◌∷◌, is_some, All, Bool-cases, arith,
}
use nunya_core.Xray.Resolver.{
  IpOption, BoxContext, Query, Addr, Lookup, answered, query_of, direct_transport, look_in, look_up,
  lookup_ip,
}

pub record Asked : Type 0 where
  pub option : IpOption
  pub answer : Query → Option (List Addr)
  pub provided : Option BoxContext

-- The lookups in order, and the field `transport` at the end.
unfoldable pub lookups : List Asked → Option ℕ → List (Asked × Lookup) × Option ℕ
lookups [] t = ([], t)
lookups (a ∷ asked) t =
    let (l, u) = lookup_ip a.option a.answer a.provided t in
    let (ls, v) = lookups asked u in ((a, l) ∷ ls, v)

abbrev pub is_ready : Option BoxContext → Bool
is_ready none = false
is_ready (some ctx) = ctx.has_router

abbrev pub has_no_ip : List (List ℕ) → Bool
has_no_ip [] = true
has_no_ip (ip ∷ ips) = false

-- A query goes to no transport of its own, or to the one that the resolver keeps.
abbrev pub IsPinned : Option ℕ → Option Query → Type 0
IsPinned kept none = Unit
IsPinned kept (some q) = (q.transport ≡ none) ⊎ (q.transport ≡ kept)

abbrev pub LookupPost : Option ℕ → Asked × Lookup → Type 0
LookupPost kept (a, l) =
    (is_some l.query ≡ ((a.option.ipv4_enable || a.option.ipv6_enable) && is_ready a.provided))
    × (has_no_ip l.ips ≡ is_some l.error)
    × IsPinned kept l.query

-- What the field may become.
abbrev Grows : Option ℕ → Option ℕ → Type 0
Grows t u = (t ≡ none) ⊎ (t ≡ u)

Grows-trans : (t u v : Option ℕ) → Grows t u → Grows u v → Grows t v
Grows-trans t u v (inl e) g = inl e
Grows-trans t u v (inr e) (inl f) = inl (cc)
Grows-trans t u v (inr e) (inr f) = inr (cc)

direct-Grows : (ctx : BoxContext) (t : Option ℕ) → Grows t (direct_transport ctx t)
direct-Grows ctx none = inl refl
direct-Grows ctx (some t) = inr refl

record StepPost (a : Asked) (t : Option ℕ) (r : Lookup × Option ℕ) : Type 0 where
  asks : is_some r.0.query ≡ ((a.option.ipv4_enable || a.option.ipv6_enable) && is_ready a.provided)
  ips : has_no_ip r.0.ips ≡ is_some r.0.error
  pinned : IsPinned r.1 r.0.query
  grows : Grows t r.1

answered_query : (q : Query) (r : Option (List Addr)) → (answered q r).query ≡ some q
answered_query q none = refl
answered_query q (some []) = refl
answered_query q (some (a ∷ addresses)) = refl

answered_ips :
    (q : Query) (r : Option (List Addr))
    → has_no_ip (answered q r).ips ≡ is_some (answered q r).error
answered_ips q none = refl
answered_ips q (some []) = refl
answered_ips q (some (a ∷ addresses)) = refl

module _ (a : Asked) (t : Option ℕ)
    (on : (a.option.ipv4_enable || a.option.ipv6_enable) ≡ true) where
  in-StepPost :
      (ctx : BoxContext) → a.provided ≡ some ctx → StepPost a t (look_in a.option a.answer ctx t)
  in-StepPost ctx p = elim (Bool-cases ctx.has_router) [
    | inl r ↦
        let q = query_of a.option ctx (direct_transport ctx t) in
        simp r (record {
          asks = rw (answered_query q (a.answer q)) (ground (arith, on, p, r));
          ips = answered_ips q (a.answer q);
          pinned =
              subst (IsPinned (direct_transport ctx t)) (sym (answered_query q (a.answer q)))
                (inr refl);
          grows = direct-Grows ctx t;
        })
    | inr r ↦
        simp r
          (record { asks = ground (arith, on, p, r); ips = refl; pinned = tt; grows = inr refl })
  ]

  up-StepPost :
      (provided : Option BoxContext)
      → a.provided ≡ provided
      → StepPost a t (look_up a.option a.answer provided t)
  up-StepPost none p = record {
    asks = ground (arith, on, p);
    ips = refl;
    pinned = tt;
    grows = inr refl;
  }
  up-StepPost (some ctx) p = in-StepPost ctx p

lookup-StepPost :
    (a : Asked) (t : Option ℕ) → StepPost a t (lookup_ip a.option a.answer a.provided t)
unfolding lookup_ip
lookup-StepPost a t = elim (Bool-cases (not a.option.ipv4_enable && not a.option.ipv6_enable)) [
  | inl e ↦ simp e (record { asks = ground (arith, e); ips = refl; pinned = tt; grows = inr refl })
  | inr e ↦ simp e (up-StepPost a t (ground (arith, e)) a.provided refl)
]

Grows-IsPinned : (t u : Option ℕ) (q : Option Query) → Grows t u → IsPinned t q → IsPinned u q
Grows-IsPinned t u none g p = tt
Grows-IsPinned t u (some q) g (inl e) = inl e
Grows-IsPinned t u (some q) (inl f) (inr e) = inl (cc)
Grows-IsPinned t u (some q) (inr f) (inr e) = inr (cc)

lookups-Grows : (asked : List Asked) (t : Option ℕ) → Grows t (lookups asked t).1
unfolding lookups
lookups-Grows [] t = inr refl
lookups-Grows (a ∷ asked) t =
    let u = (lookup_ip a.option a.answer a.provided t).1 in
    Grows-trans t u _ (lookup-StepPost a t).grows (lookups-Grows asked u)

-- For any sequence of lookups, whatever the box provides at each and its router answers: a lookup
-- makes a query exactly if it wants IPv4 or IPv6, and the box is up with a router; it has an error
-- exactly if it has no address; and all queries that go to a transport of their own go to the same,
-- which the resolver keeps at the end.
pub lookups-LookupPost :
    (asked : List Asked) (t : Option ℕ) → All (LookupPost (lookups asked t).1) (lookups asked t).0
unfolding lookups
lookups-LookupPost [] t = tt
lookups-LookupPost (a ∷ asked) t =
    let step = lookup-StepPost a t in
    let u = (lookup_ip a.option a.answer a.provided t).1 in
    (
      (step.asks, step.ips, Grows-IsPinned u _ _ (lookups-Grows asked u) step.pinned),
      lookups-LookupPost asked u,
    )
