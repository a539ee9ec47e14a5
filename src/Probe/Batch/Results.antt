-- ===== src/Probe/Batch/Results.antt =====
-- What runBatch returns.
use nunya_core.Common.{
  ℕ, zero, suc, ◌+◌, ◌≡◌, ◌≤◌, ◌<◌, refl, ap, ◌∙◌, sym, true, false, Option, none, some, List, [],
  ◌∷◌, length, arith, count, contains, ◌==◌, Bool-cases, inl, inr, is_some, ==_iff, map,
}
use nunya_core.Probe.Batch.{
  Worker, Entry, Result, aborted, missing, no_result, measured, Batch, Reach, lookup, collect,
  or_no_result, Concurrency, at_least_zero, below_zero, normalize_concurrency,
}
use nunya_core.Probe.Batch.Counted.{
  total_le, aborts, given_aborts, at_work, unpublished, holds_token, batch-Reach,
}
use nunya_core.Probe.Batch.Stored.{wrong, wrong_entries, keys, works_on, Reach-Kept}

abbrev pub result_tag : Result → ℕ
result_tag (aborted t) = t
result_tag (missing t) = t
result_tag (no_result t) = t
result_tag (measured t n) = t

abbrev pub wrong_found : ℕ → Option (Option Result) → ℕ
wrong_found t none = 0
wrong_found t (some o) = wrong t o

lookup_right : (t : ℕ) (es : List Entry) → wrong_entries es ≡ 0 → wrong_found t (lookup t es) ≡ 0
unfolding lookup wrong_entries
lookup_right t [] e = refl
lookup_right t (x ∷ es) e = elim (Bool-cases (x.tag == t)) [
  | inl c ↦ rw c (rw (sym ((==_iff x.tag t).0 c)) (omega arith))
  | inr c ↦ rw c (lookup_right t es (omega arith))
]

or_no_result-tag :
    (t : ℕ) (o : Option (Option Result)) → wrong_found t o ≡ 0 → result_tag (or_no_result t o) ≡ t
or_no_result-tag t o e = ground arith

tags-collect :
    (es : List Entry) (tags : List ℕ)
    → wrong_entries es ≡ 0
    → map result_tag (collect es tags) ≡ tags
unfolding collect
tags-collect es [] e = refl
tags-collect es (t ∷ tags) e =
    ap (λ (x : ℕ). x ∷ map result_tag (collect es tags))
      (or_no_result-tag t (lookup t es) (lookup_right t es e))
    ∙ ap (◌∷◌ t) (tags-collect es tags e)

lookup-keys : (t : ℕ) (es : List Entry) → 0 < keys t es → is_some (lookup t es) ≡ true
unfolding lookup keys
lookup-keys t [] h = absurd (omega arith)
lookup-keys t (x ∷ es) h = ground (arith, lookup-keys t es)

count-contains : (t : ℕ) (ts : List ℕ) → contains ts t ≡ true → 0 < count t ts
unfolding contains count
count-contains t [] e = cc
count-contains t (x ∷ ts) e = ground (arith, count-contains t ts)

works_on_le : (t : ℕ) (w : Worker) → works_on t w ≤ at_work w
works_on_le t w = ground arith

unpublished_le : (w : Worker) → unpublished w ≤ at_work w
unpublished_le w = ground arith

holds_token_le : (w : Worker) → holds_token w ≤ at_work w
holds_token_le w = ground arith

stored : (t k n : ℕ) → 0 < n → (k ≡ 0 → n ≡ 0) → 0 < k
stored t zero n h f = absurd (omega (arith, f refl))
stored t (suc k) n h f = omega arith

-- When the loop is done and Wait returns: the results are one for each tag, in the order given, each
-- made for its own tag; the map has one entry for each tag, so that a result can be missing only
-- where `run` gave nil; the limiter is empty; each tag was either aborted by the loop or published,
-- and none was aborted without a cancellation; no published result is an aborted one, and the map
-- holds no more aborted results than the loop has stored.
pub batch_results :
    (limit : ℕ) (tags : List ℕ) {b : Batch}
    → Reach limit tags b
    → b.pending ≡ []
    → b.wait ≡ 0
    → (map result_tag (collect b.res_map tags) ≡ tags)
      × ((t : ℕ) → contains tags t ≡ true → is_some (lookup t b.res_map) ≡ true)
      × ((t : ℕ) → keys t b.res_map ≤ 1)
      × (b.tokens ≡ 0)
      × (length b.given + b.aborted_tags ≡ length tags)
      × (b.cancelled ≡ false → b.aborted_tags ≡ 0)
      × (given_aborts b.given ≡ 0)
      × (aborts b.res_map ≤ b.aborted_tags)
unfolding count
batch_results limit tags {b} r p w =
    let c = batch-Reach limit tags r in
    let k = Reach-Kept limit tags 0 r in
    (
      tags-collect b.res_map tags k.right,
      λ t x. lookup-keys t b.res_map (
          stored t (keys t b.res_map) (count t tags) (count-contains t tags x) (λ z. omega (
            arith,
            (Reach-Kept limit tags t r).covered z,
            ap (count t) p,
            c.wait_exact,
            total_le (works_on t) at_work b.workers (works_on_le t),
          ))),
      λ t. (Reach-Kept limit tags t r).once,
      omega (
        arith,
        c.tokens_exact,
        c.wait_exact,
        total_le holds_token at_work b.workers holds_token_le,
      ),
      omega (
        arith,
        c.shared,
        c.wait_exact,
        ap length p,
        total_le unpublished at_work b.workers unpublished_le,
      ),
      k.uncancelled,
      c.unaborted,
      c.overwritten,
    )

-- The limiter admits at least one goroutine and fewer than 500: the number asked for if it is in
-- that range, else 100.
pub normalize_concurrency_bounds :
    (c : Concurrency)
    → (1 ≤ normalize_concurrency c)
      × (normalize_concurrency c < 500)
      × ((n : ℕ) → c ≡ at_least_zero n → 1 ≤ n → n < 500 → normalize_concurrency c ≡ n)
unfolding normalize_concurrency
normalize_concurrency_bounds (below_zero n) = (omega arith, omega arith, λ m e. cc)
normalize_concurrency_bounds (at_least_zero n) = ground arith
