-- ===== src/Probe/Session.antt =====
-- internal/probe/probe.go: testSession, under its mutex. A context is a handle; `ctx` and `cancel`
-- are set together.
use nunya_core.Common.{
  is_handle, ℕ, ◌+◌, ◌<◌, ◌≡◌, Bool, true, false, Option, none, some, List, [], ◌∷◌, if◌then◌else◌,
  ◌==◌, ◌||◌, arith, contains,
}

pub record Session : Type 0 where
  pub ctx : Option ℕ
  pub cancelled : ℕ → Bool
  pub next : ℕ  -- the next context's handle

abbrev pub fresh_session : Session
fresh_session = record { ctx = none; cancelled = λ c. false; next = 0 }

abbrev pub with_cancel : Session → ℕ × Session
with_cancel s = (s.next, record s { ctx = some s.next; next = s.next + 1 })

unfoldable pub current : Session → ℕ × Session
current s = elim s.ctx [ none ↦ with_cancel s | some c ↦ (c, s) ]

unfoldable pub cancel_and_rearm : Session → Session
cancel_and_rearm s = elim s.ctx [
  | none ↦ (with_cancel s).1
  | some c ↦ (with_cancel (record s { cancelled = λ d. if d == c then true else s.cancelled d })).1
]

pub data Call : Type 0 where
  test_context cancel_tests : Call

-- The calls so far, the last one first, with the contexts that were handed out.
unfoldable pub after_calls : List Call → Session × List ℕ
unfolding current cancel_and_rearm
after_calls [] = (fresh_session, [])
after_calls (test_context ∷ calls) =
    let (s, handed) = after_calls calls in let (c, t) = current s in (t, c ∷ handed)
after_calls (cancel_tests ∷ calls) =
    let (s, handed) = after_calls calls in (cancel_and_rearm s, handed)

-- At the context `c`.
record Armed (c : ℕ) (handed : List ℕ) (s : Session) : Type 0 where
  live : is_handle c s.ctx ≡ true → s.cancelled c ≡ false
  old : contains handed c ≡ true → (s.cancelled c || is_handle c s.ctx) ≡ true
  below : is_handle c s.ctx ≡ true → c < s.next
  clean : s.cancelled c ≡ true → c < s.next

context-Armed :
    (c : ℕ) (handed : List ℕ) (s : Session)
    → Armed c handed s
    → Armed c ((current s).0 ∷ handed) (current s).1
unfolding current contains
context-Armed c handed s i = ground arith

rearm-Armed :
    (c : ℕ) (handed : List ℕ) (s : Session) → Armed c handed s → Armed c handed (cancel_and_rearm s)
unfolding cancel_and_rearm contains
rearm-Armed c handed s i = ground arith

calls-Armed : (c : ℕ) (calls : List Call) → Armed c (after_calls calls).1 (after_calls calls).0
unfolding after_calls contains
calls-Armed c [] = ground arith
calls-Armed c (test_context ∷ calls) =
    context-Armed c (after_calls calls).1 (after_calls calls).0 (calls-Armed c calls)
calls-Armed c (cancel_tests ∷ calls) =
    rearm-Armed c (after_calls calls).1 (after_calls calls).0 (calls-Armed c calls)

rearmed :
    (c : ℕ) (handed : List ℕ) (s : Session)
    → Armed c handed s
    → Armed s.next handed s
    → (contains handed c ≡ true → (cancel_and_rearm s).cancelled c ≡ true)
      × ((current (cancel_and_rearm s)).1.cancelled (current (cancel_and_rearm s)).0 ≡ false)
      × (contains handed (current (cancel_and_rearm s)).0 ≡ false)
unfolding current cancel_and_rearm
rearmed c handed s i j = ground arith

-- After any calls, CancelTests leaves every context that was handed out cancelled, and the next
-- TestContext hands out one that is not cancelled and was never handed out.
pub cancel_and_rearm_reaches :
    (calls : List Call) (c : ℕ)
    → let s = (after_calls calls).0 in
      let handed = (after_calls calls).1 in
      (contains handed c ≡ true → (cancel_and_rearm s).cancelled c ≡ true)
      × ((current (cancel_and_rearm s)).1.cancelled (current (cancel_and_rearm s)).0 ≡ false)
      × (contains handed (current (cancel_and_rearm s)).0 ≡ false)
cancel_and_rearm_reaches calls c =
    rearmed c (after_calls calls).1 (after_calls calls).0 (calls-Armed c calls)
      (calls-Armed (after_calls calls).0.next calls)
