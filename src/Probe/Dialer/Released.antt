-- ===== src/Probe/Dialer/Released.antt =====
-- No connection that a probe dialed outlives its closer.
use nunya_core.Common.{
  ℕ, ◌≡◌, refl, ap, Bool, true, false, ◌||◌, ◌&&◌, not, List, [], ◌∷◌, ◌++◌, if◌then◌else◌, ◌==◌,
  arith, contains, contains-append,
}
use nunya_core.Probe.Dialer.{
  Phase, called, dialing, dialed, late, returned, refused, Dialer, Step, dial_context, look,
  dial_fails, dial_succeeds, look_again, drop_late, close, close_conn, Reach, new, more,
}

-- A call that has a connection which is not yet handed over.
abbrev pub has : ℕ → Phase → Bool
has n (dialed c) = n == c
has n (late c) = n == c
has n _ = false

pub any_has : ℕ → List Phase → Bool
any_has n [] = false
any_has n (p ∷ ps) = has n p || any_has n ps

any_has-middle :
    (n : ℕ) (front : List Phase) (p : Phase) (back : List Phase)
    → any_has n (front ++ (p ∷ back)) ≡ (has n p || any_has n (front ++ back))
unfolding any_has
any_has-middle n [] p back = refl
any_has-middle n (f ∷ front) p back = ground (arith, any_has-middle n front p back)

-- A call between its two looks, or with a connection in hand.
abbrev pub is_pending : Phase → Bool
is_pending called = false
is_pending (returned c) = false
is_pending refused = false
is_pending _ = true

contains-middle :
    (n : ℕ) (front : List ℕ) (c : ℕ) (back : List ℕ)
    → contains (front ++ (c ∷ back)) n ≡ (c == n || contains (front ++ back) n)
unfolding contains
contains-middle n [] c back = refl
contains-middle n (f ∷ front) c back = ground (arith, contains-middle n front c back)

record Held (n : ℕ) (d : Dialer) : Type 0 where
  held :
      d.live n ≡ true → (any_has n d.dials || (contains d.conns n || contains d.closing n)) ≡ true
  drained : d.closed ≡ true → d.conns ≡ []

Step-Held : (n : ℕ) {d e : Dialer} → Step d e → Held n d → Held n e
unfolding any_has contains
Step-Held n dial_context i = ground arith
Step-Held n {d} (look front back a) i = ground (
  arith,
  ap (any_has n) a,
  any_has-middle n front called back,
  any_has-middle n front (if d.closed then refused else dialing) back,
)
Step-Held n (dial_fails front back a) i = ground (
  arith,
  ap (any_has n) a,
  any_has-middle n front dialing back,
  any_has-middle n front refused back,
)
Step-Held n {d} (dial_succeeds front back a) i = ground (
  arith,
  ap (any_has n) a,
  any_has-middle n front dialing back,
  any_has-middle n front (dialed d.next) back,
)
Step-Held n {d} (look_again front c back a) i = ground (
  arith,
  ap (any_has n) a,
  any_has-middle n front (dialed c) back,
  any_has-middle n front (late c) back,
  any_has-middle n front (returned c) back,
  contains-append d.conns (c ∷ []) n,
)
Step-Held n (drop_late front c back a) i = ground (
  arith,
  ap (any_has n) a,
  any_has-middle n front (late c) back,
  any_has-middle n front refused back,
)
Step-Held n {d} close i = ground (arith, contains-append d.closing d.conns n)
Step-Held n (close_conn front c back a) i =
    ground (arith, ap (λ (l : List ℕ). contains l n) a, contains-middle n front c back)

Reach-Held : (n : ℕ) {d : Dialer} → Reach d → Held n d
unfolding any_has contains
Reach-Held n new = ground arith
Reach-Held n (more r s) = Step-Held n s (Reach-Held n r)

pub is_quiet : List Phase → Bool
is_quiet [] = true
is_quiet (p ∷ ps) = not (is_pending p) && is_quiet ps

quiet_has : (n : ℕ) (ps : List Phase) → is_quiet ps ≡ true → any_has n ps ≡ false
unfolding is_quiet any_has
quiet_has n [] e = refl
quiet_has n (p ∷ ps) e = ground (arith, quiet_has n ps)

-- In a reachable state a connection that lives is in the hands of a call that has not returned it,
-- or recorded, or about to be closed; once the closer ran, its closing goroutines ended and no call
-- is at work, no connection lives.
pub live-Reach :
    (n : ℕ) {d : Dialer}
    → Reach d
    → (d.live n ≡ true → (any_has n d.dials || (contains d.conns n || contains d.closing n)) ≡ true)
      × (d.closed ≡ true → d.closing ≡ [] → is_quiet d.dials ≡ true → d.live n ≡ false)
unfolding contains
live-Reach n {d} r =
    ((Reach-Held n r).held, λ c e q. ground (arith, Reach-Held n r, quiet_has n d.dials q))
