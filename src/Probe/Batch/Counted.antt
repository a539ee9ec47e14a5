-- ===== src/Probe/Batch/Counted.antt =====
-- The limiter, the wait group and the publications of a batch, counted by what its goroutines are
-- at.
use nunya_core.Common.{
  ℕ, ◌+◌, ◌≡◌, ◌≤◌, refl, ap, Option, none, some, List, [], ◌∷◌, ◌++◌, length, arith,
}
use nunya_core.Probe.Batch.{
  Worker, Phase, started, computed, kept, published, released, finished, Entry, Result, aborted,
  missing, put, store, Batch, ran, Step, cancel, abort, pass, spawn, not_found, run, keep, publish,
  release, finish, Reach, begun, later,
}

-- The sum of a weight over the goroutines.
unfoldable pub total : (Worker → ℕ) → List Worker → ℕ
total f [] = 0
total f (w ∷ ws) = f w + total f ws

total-middle :
    (f : Worker → ℕ) (front : List Worker) (w : Worker) (back : List Worker)
    → total f (front ++ (w ∷ back)) ≡ f w + total f (front ++ back)
unfolding total
total-middle f [] w back = refl
total-middle f (v ∷ front) w back = omega (arith, total-middle f front w back)

-- A goroutine that moves on changes a sum by its own two weights.
pub total_moved :
    (f : Worker → ℕ) (front : List Worker) (t : ℕ) (p q : Phase) (back ws : List Worker)
    → ws ≡ front ++ (record { tag = t; phase = p } ∷ back)
    → total f (front ++ (record { tag = t; phase = q } ∷ back)) + f (record { tag = t; phase = p })
      ≡ total f ws + f (record { tag = t; phase = q })
total_moved f front t p q back ws a = rw a (
    omega (
      arith,
      total-middle f front (record { tag = t; phase = p }) back,
      total-middle f front (record { tag = t; phase = q }) back,
    ))

pub total_at :
    (f : Worker → ℕ) (front : List Worker) (t : ℕ) (p : Phase) (back ws : List Worker)
    → ws ≡ front ++ (record { tag = t; phase = p } ∷ back)
    → f (record { tag = t; phase = p }) ≤ total f ws
total_at f front t p back ws a =
    rw a (omega (arith, total-middle f front (record { tag = t; phase = p }) back))

pub total_le :
    (f g : Worker → ℕ) (ws : List Worker) → ((w : Worker) → f w ≤ g w) → total f ws ≤ total g ws
unfolding total
total_le f g [] h = omega arith
total_le f g (w ∷ ws) h = omega (arith, total_le f g ws h, h w)

abbrev pub holds_token : Worker → ℕ
holds_token w = elim w.phase [ released ↦ 0 | finished ↦ 0 | _ ↦ 1 ]

abbrev pub at_work : Worker → ℕ
at_work w = elim w.phase [ finished ↦ 0 | _ ↦ 1 ]

-- Not yet published.
abbrev pub unpublished : Worker → ℕ
unpublished w = elim w.phase [ started ↦ 1 | computed r ↦ 1 | kept r ↦ 1 | _ ↦ 0 ]

abbrev pub is_abort : Option Result → ℕ
is_abort (some (aborted t)) = 1
is_abort _ = 0

-- An aborted result that a goroutine is about to store or publish.
abbrev pub carries_abort : Worker → ℕ
carries_abort w = elim w.phase [ computed r ↦ is_abort r | kept r ↦ is_abort r | _ ↦ 0 ]

unfoldable pub aborts : List Entry → ℕ
aborts [] = 0
aborts (e ∷ es) = is_abort e.result + aborts es

pub given_aborts : List (Option Result) → ℕ
given_aborts [] = 0
given_aborts (r ∷ rs) = is_abort r + given_aborts rs

pub record Counts (limit : ℕ) (tags : List ℕ) (b : Batch) : Type 0 where
  pub tokens_exact : b.tokens ≡ total holds_token b.workers
  pub bounded : b.tokens ≤ limit
  pub wait_exact : b.wait ≡ length b.pending + total at_work b.workers
  pub shared :
      length b.given + total unpublished b.workers + b.aborted_tags + length b.pending ≡ length tags
  pub overwritten : aborts b.res_map ≤ b.aborted_tags
  pub honest : total carries_abort b.workers ≡ 0
  pub unaborted : given_aborts b.given ≡ 0

is_abort-ran : (t : ℕ) (o : Option ℕ) → is_abort (ran t o) ≡ 0
is_abort-ran t none = refl
is_abort-ran t (some n) = refl

aborts-put :
    (t : ℕ) (r : Option Result) (es : List Entry) → aborts (put t r es) ≤ is_abort r + aborts es
unfolding put aborts
aborts-put t r [] = omega arith
aborts-put t r (e ∷ es) = ground (arith, aborts-put t r es)

module _ (limit : ℕ) (tags : List ℕ) where
  Step-Counts : {b c : Batch} → Step limit b c → Counts limit tags b → Counts limit tags c
  unfolding total aborts given_aborts store
  Step-Counts cancel i = omega arith
  Step-Counts {b} (abort t rest n e p c w) i =
      omega (arith, ap length e, aborts-put t (some (aborted t)) b.res_map)
  Step-Counts (pass t rest e p c) i = omega arith
  Step-Counts (spawn t rest e p l) i = omega (arith, ap length e)
  Step-Counts {b} (not_found front t back a) i =
      let f = λ (w : Worker → ℕ).
        total_moved w front t started (computed (some (missing t))) back b.workers a in
      omega (arith, f holds_token, f at_work, f unpublished, f carries_abort)
  Step-Counts {b} (run front t back o a) i =
      let f =
        λ (w : Worker → ℕ). total_moved w front t started (computed (ran t o)) back b.workers a in
      omega (arith, is_abort-ran t o, f holds_token, f at_work, f unpublished, f carries_abort)
  Step-Counts {b} (keep front t r back a) i =
      let f = λ (w : Worker → ℕ). total_moved w front t (computed r) (kept r) back b.workers a in
      omega (
        arith,
        aborts-put t r b.res_map,
        total_at carries_abort front t (computed r) back b.workers a,
        f holds_token,
        f at_work,
        f unpublished,
        f carries_abort,
      )
  Step-Counts {b} (publish front t r back a) i =
      let f = λ (w : Worker → ℕ). total_moved w front t (kept r) published back b.workers a in
      omega (
        arith,
        total_at carries_abort front t (kept r) back b.workers a,
        f holds_token,
        f at_work,
        f unpublished,
        f carries_abort,
      )
  Step-Counts {b} (release front t back n a e) i =
      let f = λ (w : Worker → ℕ). total_moved w front t published released back b.workers a in
      omega (arith, f holds_token, f at_work, f unpublished, f carries_abort)
  Step-Counts {b} (finish front t back n a e) i =
      let f = λ (w : Worker → ℕ). total_moved w front t released finished back b.workers a in
      omega (arith, f holds_token, f at_work, f unpublished, f carries_abort)

  -- In every reachable state, with the limiter's capacity `limit`: the limiter holds a token for
  -- each goroutine that has not released its own, and at most `limit`; the wait group counts the
  -- tags that the loop has not done and the goroutines that have not finished; and each tag is
  -- pending, unpublished in a goroutine, published, or aborted by the loop; the map holds no more
  -- aborted results than the loop stored; and none is published.
  pub batch-Reach : {b : Batch} → Reach limit tags b → Counts limit tags b
  unfolding total aborts given_aborts
  batch-Reach begun = omega arith
  batch-Reach (later r s) = Step-Counts s (batch-Reach r)
