-- ===== src/Mobile/Status/Polled.antt =====
-- The rates that the polls of a status add up to.
use nunya_core.Common.{
  ℕ, ◌+◌, ◌%◌, ◌^◌, ◌<◌, ◌≡◌, refl, Bool, true, false, Option, none, some, List, [], ◌∷◌, All,
  Bool-cases, inl, inr, arith,
}
use nunya_core.Mobile.Status.{
  Sampler, Poll, StatusMessage, first_message, with_connections, with_traffic, status,
}

-- The sums of the rates of the messages, up and down, one poll after another, and the state then.
unfoldable pub polls : List Poll → Sampler → ℕ × ℕ × Sampler
polls [] s = (0, 0, s)
polls (p ∷ ps) s =
    let (m, t) = status p s in
    let (up, down, u) = polls ps t in (m.uplink + up, m.downlink + down, u)

-- The totals that a poll shows, or those from before.
abbrev pub shown : Bool → Option (ℕ × ℕ) → ℕ × ℕ → ℕ × ℕ
shown false t before = before
shown true none before = before
shown true (some totals) before = totals

unfoldable pub last_shown : List Poll → ℕ × ℕ → ℕ × ℕ
last_shown [] before = before
last_shown (p ∷ ps) before = last_shown ps (shown p.running p.traffic before)

abbrev pub AreWords : Option (ℕ × ℕ) → Type 0
AreWords none = Unit
AreWords (some (up, down)) = (up < 2 ^ 64) × (down < 2 ^ 64)

-- A state that has been sampled, with the totals that it was sampled at.
record Sampled (totals : ℕ × ℕ) (s : Sampler) : Type 0 where
  sampled : s.status_sampled ≡ true
  up : s.last_uplink_total ≡ totals.0
  down : s.last_downlink_total ≡ totals.1
  up_lt : totals.0 < 2 ^ 64
  down_lt : totals.1 < 2 ^ 64

record Rated (before after : ℕ × ℕ) (r : StatusMessage × Sampler) : Type 0 where
  up : (r.0.uplink + before.0) % 2 ^ 64 ≡ after.0
  down : (r.0.downlink + before.1) % 2 ^ 64 ≡ after.1
  sampled : Sampled after r.1

traffic-Rated :
    (before : ℕ × ℕ) (s : Sampler) (len : ℕ) (t : Option (ℕ × ℕ)) (m : StatusMessage)
    → m.uplink ≡ 0
    → m.downlink ≡ 0
    → Sampled before s
    → AreWords t
    → Rated before (shown true t before) (with_traffic s len t m)
traffic-Rated before s len none m e f h w = record {
  up = omega (arith, h.up_lt);
  down = omega (arith, h.down_lt);
  sampled = h;
}
traffic-Rated before s len (some (up, down)) m e f h w = record {
  up = rw h.sampled (omega (arith, h.up, h.up_lt, w.0));
  down = rw h.sampled (omega (arith, h.down, h.down_lt, w.1));
  sampled = record { sampled = refl; up = refl; down = refl; up_lt = w.0; down_lt = w.1 };
}

connected-Rated :
    (before : ℕ × ℕ) (s : Sampler) (p : Poll) (c : Option ℕ)
    → Sampled before s
    → AreWords p.traffic
    → Rated before
        (shown true p.traffic before)
        (with_traffic s p.connections_len p.traffic (with_connections c (first_message p)))
connected-Rated before s p none h w = traffic-Rated before s _ p.traffic _ refl refl h w
connected-Rated before s p (some n) h w = traffic-Rated before s _ p.traffic _ refl refl h w

status-Rated :
    (before : ℕ × ℕ) (s : Sampler) (p : Poll)
    → Sampled before s
    → AreWords p.traffic
    → Rated before (shown p.running p.traffic before) (status p s)
unfolding status
status-Rated before s p h w = elim (Bool-cases p.running) [
  | inl e ↦ simp e (connected-Rated before s p p.connections h w)
  | inr e ↦
      simp e (record { up = omega (arith, h.up_lt); down = omega (arith, h.down_lt); sampled = h })
]

abbrev pub RatesPost : ℕ × ℕ → ℕ × ℕ → ℕ × ℕ × Sampler → Type 0
RatesPost before after r =
    ((r.0 + before.0) % 2 ^ 64 ≡ after.0) × ((r.1 + before.1) % 2 ^ 64 ≡ after.1)

polls-RatesPost :
    (ps : List Poll) (before : ℕ × ℕ) (s : Sampler)
    → Sampled before s
    → All (λ p. AreWords p.traffic) ps
    → RatesPost before (last_shown ps before) (polls ps s)
unfolding polls last_shown
polls-RatesPost [] before s h ws = (omega (arith, h.up_lt), omega (arith, h.down_lt))
polls-RatesPost (p ∷ ps) before s h ws =
    let first = status-Rated before s p h ws.0 in
    let rest = polls-RatesPost ps _ (status p s).1 first.sampled ws.1 in
    (omega (arith, first.up, rest.0), omega (arith, first.down, rest.1))

-- After a first Status on a new instance that shows traffic, and any further ones, with totals that
-- fit 64 bits: the rates of all messages add up, modulo 2^64, to the last totals shown less the first
-- ones, up and down.
pub polls_rates :
    (p : Poll) (ps : List Poll) (up down : ℕ)
    → p.running ≡ true
    → p.traffic ≡ some (up, down)
    → up < 2 ^ 64
    → down < 2 ^ 64
    → All (λ q. AreWords q.traffic) ps
    → RatesPost
        (up, down)
        (last_shown ps (up, down))
        (polls
          (p ∷ ps)
          (record { status_sampled = false; last_uplink_total = 0; last_downlink_total = 0 }))
unfolding polls status
polls_rates p ps up down e f u d ws =
    let rest =
      polls-RatesPost ps (up, down)
        (record { status_sampled = true; last_uplink_total = up; last_downlink_total = down })
        (record { sampled = refl; up = refl; down = refl; up_lt = u; down_lt = d }) ws in
    simp (e, f) (omega (arith, rest.0), omega (arith, rest.1))
