-- ===== src/Probe/Tunnels/Search.antt =====
-- The loop invariant of the search for tunnels.
use nunya_core.Common.{
  some_cancel, contains, contains-append, contains-reverse, are_distinct, distinct-append, ℕ, ◌≡◌,
  ap, sym, subst, ◌∙◌, Bool, true, false, ◌||◌, ◌&&◌, Option, none, some, List, [], ◌∷◌, ◌++◌, ◌==◌,
  if◌then◌else◌, arith, Bool-cases, inl, inr, ◌⊎◌, is_some, ==_iff, ==_refl,
}
use mathlib.Core.List.{reverse}

module _ (outbound : ℕ → Option (List ℕ)) (endpoint : ℕ → Bool) (tag : ℕ) where
  -- The tags that `tag` depends on, through outbounds that are found.
  pub data Leads : ℕ → Type 0 where
    start : Leads tag
    follow :
        {t u : ℕ} {deps : List ℕ}
        → Leads t
        → outbound t ≡ some deps
        → contains deps u ≡ true
        → Leads u

  abbrev pub is_tunnel : ℕ → Bool
  is_tunnel t = is_some (outbound t) && endpoint t

  pub record Inv (visited pending tunnels : List ℕ) : Type 0 where
    pub rooted : (contains visited tag || contains pending tag) ≡ true
    pub closed :
        (t u : ℕ) (deps : List ℕ)
        → contains visited t ≡ true
        → outbound t ≡ some deps
        → contains deps u ≡ true
        → (contains visited u || contains pending u) ≡ true
    pub led : (t : ℕ) → (contains visited t || contains pending t) ≡ true → Leads t
    pub found : (t : ℕ) → contains tunnels t ≡ (contains visited t && is_tunnel t)
    pub distinct : are_distinct tunnels ≡ true

  -- A tag that was visited before.
  pub seen-Inv :
      (visited pending tunnels : List ℕ) (t : ℕ)
      → contains visited t ≡ true
      → Inv visited (t ∷ pending) tunnels
      → Inv visited pending tunnels
  unfolding contains
  seen-Inv visited pending tunnels t c i = record {
    rooted = ground (arith, i.rooted, ==_iff t tag);
    closed = λ v u deps x y z. ground (arith, i.closed v u deps x y z, ==_iff t u);
    led = λ v x. i.led v (ground arith);
    found = i.found;
    distinct = i.distinct;
  }

  visited_new :
      (visited : List ℕ) (t v : ℕ)
      → contains (t ∷ visited) v ≡ true
      → (t ≡ v) ⊎ (contains visited v ≡ true)
  unfolding contains
  visited_new visited t v c = elim (Bool-cases (t == v)) [
    | inl e ↦ inl ((==_iff t v).0 e)
    | inr e ↦ inr (ground arith)
  ]

  pub missing-Inv :
      (visited pending tunnels : List ℕ) (t : ℕ)
      → outbound t ≡ none
      → Inv visited (t ∷ pending) tunnels
      → Inv (t ∷ visited) pending tunnels
  unfolding contains
  missing-Inv visited pending tunnels t o i = record {
    rooted = ground (arith, i.rooted);
    closed = λ v u deps x y z. elim (visited_new visited t v x) [
      | inl e ↦ cc
      | inr k ↦ ground (arith, i.closed v u deps k y z)
    ];
    led = λ v x. i.led v (ground arith);
    found = λ v. elim (Bool-cases (t == v)) [
      | inl e ↦ ground (arith, i.found v, sym (ap outbound ((==_iff t v).0 e)) ∙ o)
      | inr e ↦ ground (arith, i.found v)
    ];
    distinct = i.distinct;
  }

  abbrev pub grown : List ℕ → ℕ → List ℕ
  grown tunnels t = if endpoint t then tunnels ++ (t ∷ []) else tunnels

  contains-grown :
      (tunnels : List ℕ) (t v : ℕ)
      → contains (grown tunnels t) v ≡ (contains tunnels v || (endpoint t && t == v))
  unfolding contains
  contains-grown tunnels t v = ground (arith, contains-append tunnels (t ∷ []) v)

  pub found-Inv :
      (visited pending tunnels deps : List ℕ) (t : ℕ)
      → contains visited t ≡ false
      → outbound t ≡ some deps
      → Inv visited (t ∷ pending) tunnels
      → Inv (t ∷ visited) (reverse deps ++ pending) (grown tunnels t)
  unfolding contains
  found-Inv visited pending tunnels deps t c o i = record {
    rooted = ground (arith, i.rooted, contains-append (reverse deps) pending tag);
    closed = λ v u ds x y z. elim (visited_new visited t v x) [
      | inl e ↦ ground (
        arith,
        contains-append (reverse deps) pending u,
        contains-reverse deps u,
        subst (λ (l : List ℕ). contains l u ≡ true)
            (some_cancel (sym y ∙ (sym (ap outbound e) ∙ o))) z,
      )
      | inr k ↦ ground (arith, i.closed v u ds k y z, contains-append (reverse deps) pending u)
    ];
    led = λ v x. elim (Bool-cases (contains deps v)) [
      | inl k ↦ follow (i.led t (ground (arith, ==_refl t))) o k
      | inr k ↦
          i.led v
            (ground (arith, contains-append (reverse deps) pending v, contains-reverse deps v))
    ];
    found = λ v. elim (Bool-cases (t == v)) [
      | inl e ↦ ground (
        arith,
        i.found v,
        contains-grown tunnels t v,
        ap endpoint ((==_iff t v).0 e),
        sym (ap outbound ((==_iff t v).0 e)) ∙ o,
        sym (ap (contains visited) ((==_iff t v).0 e)) ∙ c,
      )
      | inr e ↦ ground (arith, i.found v, contains-grown tunnels t v)
    ];
    distinct = ground (arith, i.distinct, distinct-append tunnels t i.distinct, i.found t);
  }
