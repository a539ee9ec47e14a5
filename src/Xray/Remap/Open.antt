-- ===== src/Xray/Remap/Open.antt =====
-- Which listeners are open, counted by address.
use nunya_core.Common.{
  ℕ, ◌+◌, ◌<◌, ◌≡◌, ◌∙◌, refl, ap, Bool, true, ◌&&◌, Try, gives, fails, ◌>>=◌, Option, none, some,
  List, [], ◌∷◌, ◌++◌, if◌then◌else◌, ◌==◌, ==_refl, ==_iff, eq_text, eq_text_refl, eq_text→eq,
  arith, Bool-cases, inl, inr, map,
}
use nunya_core.Xray.Remap.{
  Failure, Address, Pair, Inbound, Config, eq_address, close_one, close_each, Looped, with_probe,
  with_port, fixed_port, remap_loop, after_inbounds, inbounds_of, remap_inbounds, listen_loop,
  host_of,
}

abbrev one : Bool → ℕ
one b = if b then 1 else 0

unfoldable pub opens : Address → List Address → ℕ
unfolding eq_address
opens a [] = 0
opens a (b ∷ open_) = (if eq_address b a then 1 else 0) + opens a open_

eq_address_refl : (a : Address) → eq_address a a ≡ true
unfolding eq_address
eq_address_refl a = ground (arith, eq_text_refl a.host, ==_refl a.port)

same_address : (b c a : Address) → eq_address b c ≡ true → eq_address b a ≡ eq_address c a
unfolding eq_address
same_address b c a e =
    let h : b.host ≡ c.host = eq_text→eq b.host c.host (ground (arith, e)) in
    let p : b.port ≡ c.port = (==_iff b.port c.port).0 (ground (arith, e)) in
    ap (λ (x : List ℕ). eq_text x a.host && b.port == a.port) h
    ∙ ap (λ (x : ℕ). eq_text c.host a.host && x == a.port) p

opens-close_one :
    (a c : Address) (open_ : List Address)
    → 0 < opens c open_
    → opens a (close_one c open_) + (if eq_address c a then 1 else 0) ≡ opens a open_
unfolding opens close_one
opens-close_one a c [] h = absurd (omega arith)
opens-close_one a c (b ∷ open_) h = elim (Bool-cases (eq_address b c)) [
  | inl e ↦ rw e (omega (arith, ap one (same_address b c a e)))
  | inr e ↦ rw e (omega (arith, opens-close_one a c open_ (omega (arith, simp e at h))))
]

-- What was opened is closed again.
pub opens-close_each :
    (opened before open_ : List Address)
    → ((a : Address) → opens a open_ ≡ opens a opened + opens a before)
    → (a : Address) → opens a (close_each opened open_) ≡ opens a before
unfolding opens close_each
opens-close_each [] before open_ h a = h a ∙ omega arith
opens-close_each (c ∷ rest) before open_ h a =
    let here = ap one (eq_address_refl c) in
    opens-close_each rest before (close_one c open_)
      (λ b. omega (arith, h b, opens-close_one b c open_ (omega (arith, h c, here)))) a

pub opens-append :
    (a : Address) (xs ys : List Address) → opens a (xs ++ ys) ≡ opens a xs + opens a ys
unfolding opens
opens-append a [] ys = omega arith
opens-append a (x ∷ xs) ys = omega (arith, opens-append a xs ys)

-- The probes that a loop adds are those that it opens.
abbrev LoopPost : List Address → List Address → Looped → Type 0
LoopPost probes open_ r =
    (a : Address) → opens a r.open_ + opens a probes ≡ opens a r.probes + opens a open_

module _ (listen : List Address → List ℕ → Option ℕ) where
  probe-LoopPost :
      (i : Inbound) (port : ℕ) (probes open_ : List Address) (o : Option ℕ)
      (next : Address → Looped)
      → ((t : Address) → LoopPost (probes ++ (t ∷ [])) (t ∷ open_) (next t))
      → LoopPost probes open_ (with_probe i port probes open_ o next)
  unfolding opens
  probe-LoopPost i port probes open_ none next h a = omega arith
  probe-LoopPost i port probes open_ (some p) next h a =
      let t : Address = record { host = host_of i.listen; port = p } in
      omega (arith, h t a, opens-append a probes (t ∷ []))

  port-LoopPost :
      (i : Inbound) (probes open_ : List Address) (o : Try Failure ℕ) (next : Address → Looped)
      → ((t : Address) → LoopPost (probes ++ (t ∷ [])) (t ∷ open_) (next t))
      → LoopPost probes open_ (with_port listen i probes open_ o next)
  port-LoopPost i probes open_ (fails e) next h a = omega arith
  port-LoopPost i probes open_ (gives port) next h a =
      probe-LoopPost i port probes open_ (listen open_ (host_of i.listen)) next h a

  remap_loop-LoopPost :
      (probes open_ : List Address) (is : List Inbound)
      → LoopPost probes open_ (remap_loop listen probes open_ is)
  unfolding remap_loop
  remap_loop-LoopPost probes open_ [] a = omega arith
  remap_loop-LoopPost probes open_ (i ∷ is) a =
      port-LoopPost i probes open_ (fixed_port i.port) _
        (λ t. remap_loop-LoopPost (probes ++ (t ∷ [])) (t ∷ open_) is) a

  after-opens :
      (open_ : List Address) (is : Try Failure (List Inbound)) (a : Address)
      → opens a (after_inbounds listen open_ is).1 ≡ opens a open_
  unfolding opens
  after-opens open_ (fails e) a = refl
  after-opens open_ (gives is) a =
      let r = remap_loop listen [] open_ is in
      opens-close_each r.probes open_ r.open_
        (λ b. omega (arith, remap_loop-LoopPost [] open_ is b)) a

  pub remap_inbounds-opens :
      (open_ : List Address) (config : Config) (a : Address)
      → opens a (remap_inbounds listen open_ config).1 ≡ opens a open_
  unfolding remap_inbounds
  remap_inbounds-opens open_ config a = after-opens open_ (inbounds_of config) a

module _ (take_over : List Address → Address → Bool) where
  -- Each gate can be taken over when it is its turn.
  abbrev pub Taken : List Address → List Pair → Type 0
  Taken open_ [] = Unit {0}
  Taken open_ (p ∷ ps) = (take_over open_ p.gate ≡ true) × Taken (p.gate ∷ open_) ps

  abbrev pub ListenPost :
      List Address
      → List Address
      → List Address
      → List Pair
      → Try Failure (List Pair) × List Address
      → Type 0
  ListenPost before bridges open_ ps (gives qs, ls) =
      (qs ≡ ps)
      × ((a : Address) → opens a ls ≡ opens a (map (λ p. p.gate) ps) + opens a open_)
      × Taken open_ ps
  ListenPost before bridges open_ ps (fails e, ls) = (a : Address) → opens a ls ≡ opens a before

  more-ListenPost :
      (before bridges open_ : List Address) (p : Pair) (ps : List Pair)
      (r : Try Failure (List Pair) × List Address)
      → take_over open_ p.gate ≡ true
      → ListenPost before (bridges ++ (p.gate ∷ [])) (p.gate ∷ open_) ps r
      → ListenPost before bridges open_ (p ∷ ps) (r.0 >>= λ taken. gives (p ∷ taken), r.1)
  unfolding opens
  more-ListenPost before bridges open_ p ps (gives qs, ls) t (same, n, taken) =
      (ap (◌∷◌ p) same, λ a. omega (arith, n a), (t, taken))
  more-ListenPost before bridges open_ p ps (fails e, ls) t h = h

  pub listen_loop-ListenPost :
      (before bridges open_ : List Address) (ps : List Pair)
      → ((a : Address) → opens a open_ ≡ opens a bridges + opens a before)
      → ListenPost before bridges open_ ps (listen_loop take_over bridges open_ ps)
  unfolding listen_loop opens
  listen_loop-ListenPost before bridges open_ [] h = (refl, (λ a. omega arith), tt)
  listen_loop-ListenPost before bridges open_ (p ∷ ps) h =
      elim (Bool-cases (take_over open_ p.gate)) [
        | inl t ↦ rw t (
            more-ListenPost before bridges open_ p ps _ t (
              listen_loop-ListenPost before (bridges ++ (p.gate ∷ [])) (p.gate ∷ open_) ps
                (λ a. omega (arith, h a, opens-append a bridges (p.gate ∷ [])))))
        | inr f ↦ rw f (opens-close_each bridges before open_ h)
      ]
