-- ===== src/Probe/Batch/Stored.antt =====
-- What the map of a batch holds for each tag.
use nunya_core.Common.{
  ℕ, ◌+◌, ◌≡◌, refl, ap, false, Option, none, some, List, [], ◌∷◌, arith, count, if◌then◌else◌,
  ◌==◌, ==_refl, ==_iff, ◌≤◌, Bool-cases, inl, inr,
}
use nunya_core.Probe.Batch.{
  Worker, started, computed, kept, published, released, finished, Entry, Result, aborted, missing,
  put, store, no_result, measured, Batch, ran, Step, cancel, abort, pass, spawn, not_found, run,
  keep, publish, release, finish, Reach, begun, later,
}
use nunya_core.Probe.Batch.Counted.{total, total_moved, total_at, Counts, batch-Reach}

-- 1 for a result that no call of the tag `t` stores.
abbrev pub wrong : ℕ → Option Result → ℕ
wrong t none = 0
wrong t (some (aborted u)) = if u == t then 0 else 1
wrong t (some (missing u)) = if u == t then 0 else 1
wrong t (some (measured u n)) = if u == t then 0 else 1
wrong t (some (no_result u)) = 1

unfoldable pub wrong_entries : List Entry → ℕ
wrong_entries [] = 0
wrong_entries (e ∷ es) = wrong e.tag e.result + wrong_entries es

unfoldable pub keys : ℕ → List Entry → ℕ
keys t [] = 0
keys t (e ∷ es) = (if e.tag == t then 1 else 0) + keys t es

abbrev pub carries_wrong : Worker → ℕ
carries_wrong w = elim w.phase [ computed r ↦ wrong w.tag r | _ ↦ 0 ]

-- A goroutine of `t` that has not stored its result.
abbrev pub works_on : ℕ → Worker → ℕ
works_on t w = elim w.phase [
  | started ↦ if w.tag == t then 1 else 0
  | computed r ↦ if w.tag == t then 1 else 0
  | _ ↦ 0
]

-- At each tag `t`.
pub record Kept (tags : List ℕ) (t : ℕ) (b : Batch) : Type 0 where
  pub covered :
      keys t b.res_map ≡ 0 → count t tags ≡ count t b.pending + total (works_on t) b.workers
  pub once : keys t b.res_map ≤ 1
  pub right : wrong_entries b.res_map ≡ 0
  pub carried : total carries_wrong b.workers ≡ 0
  pub uncancelled : b.cancelled ≡ false → b.aborted_tags ≡ 0

wrong_aborted : (t : ℕ) → (wrong t (some (aborted t)) ≡ 0) × (wrong t (some (missing t)) ≡ 0)
wrong_aborted t = ground (arith, ==_refl t)

wrong-ran : (t : ℕ) (o : Option ℕ) → wrong t (ran t o) ≡ 0
wrong-ran t none = refl
wrong-ran t (some n) = ground (arith, ==_refl t)

keys-put :
    (u t : ℕ) (r : Option Result) (es : List Entry)
    → (keys u es ≤ keys u (put t r es)) × ((if t == u then 1 else 0) ≤ keys u (put t r es))
unfolding put keys
keys-put u t r [] = (omega arith, ground arith)
keys-put u t r (e ∷ es) = ground (arith, keys-put u t r es, ==_iff e.tag t)

keys-put_same :
    (u t : ℕ) (r : Option Result) (es : List Entry)
    → keys u (put t r es)
      ≡ (if t == u then (if keys u es == 0 then 1 else keys u es) else keys u es)
unfolding put keys
keys-put_same u t r [] = ground arith
keys-put_same u t r (e ∷ es) = ground (arith, keys-put_same u t r es, ==_iff e.tag t)

-- There is an entry once if it was before.
keys-put_once :
    (u t : ℕ) (r : Option Result) (es : List Entry) → keys u es ≤ 1 → keys u (put t r es) ≤ 1
keys-put_once u t r es h = ground (arith, keys-put_same u t r es)

wrong_entries-put :
    (t : ℕ) (r : Option Result) (es : List Entry)
    → wrong_entries (put t r es) ≤ wrong t r + wrong_entries es
unfolding put wrong_entries
wrong_entries-put t r [] = omega arith
wrong_entries-put t r (e ∷ es) = elim (Bool-cases (e.tag == t)) [
  | inl c ↦ rw c (omega arith)
  | inr c ↦ rw c (omega (arith, wrong_entries-put t r es))
]

module _ (limit : ℕ) (tags : List ℕ) (u : ℕ) where
  Step-Kept : {b c : Batch} → Step limit b c → Counts limit tags b → Kept tags u b → Kept tags u c
  unfolding total count store
  Step-Kept cancel k i = record {
    covered = i.covered;
    once = i.once;
    right = i.right;
    carried = i.carried;
    uncancelled = λ e. cc;
  }
  Step-Kept {b} (abort t rest n e p c w) k i = record {
    covered = λ k. omega (
      arith,
      k,
      keys-put u t (some (aborted t)) b.res_map,
      i.covered (omega (arith, k, keys-put u t (some (aborted t)) b.res_map)),
      ap (count u) e,
    );
    once = keys-put_once u t (some (aborted t)) b.res_map i.once;
    right =
        omega (arith, i.right, wrong_aborted t, wrong_entries-put t (some (aborted t)) b.res_map);
    carried = i.carried;
    uncancelled = λ x. absurd (ground arith);
  }
  Step-Kept (pass t rest e p c) k i = record {
    covered = i.covered;
    once = i.once;
    right = i.right;
    carried = i.carried;
    uncancelled = i.uncancelled;
  }
  Step-Kept {b} (spawn t rest e p l) k i = record {
    covered = λ k. omega (arith, i.covered k, ap (count u) e);
    once = i.once;
    right = i.right;
    carried = omega (arith, i.carried);
    uncancelled = i.uncancelled;
  }
  Step-Kept {b} (not_found front t back a) k i =
      let f = λ (w : Worker → ℕ).
        total_moved w front t started (computed (some (missing t))) back b.workers a in
      record {
        covered = λ z. omega (arith, i.covered z, f (works_on u));
        once = i.once;
        right = i.right;
        carried = omega (arith, i.carried, f carries_wrong, wrong_aborted t);
        uncancelled = i.uncancelled;
      }
  Step-Kept {b} (run front t back o a) k i =
      let f =
        λ (w : Worker → ℕ). total_moved w front t started (computed (ran t o)) back b.workers a in
      record {
        covered = λ z. omega (arith, i.covered z, f (works_on u));
        once = i.once;
        right = i.right;
        carried = omega (arith, i.carried, f carries_wrong, wrong-ran t o);
        uncancelled = i.uncancelled;
      }
  Step-Kept {b} (keep front t r back a) k i =
      let f = λ (w : Worker → ℕ). total_moved w front t (computed r) (kept r) back b.workers a in
      record {
        covered = λ z. omega (
          arith,
          z,
          keys-put u t r b.res_map,
          i.covered (omega (arith, z, keys-put u t r b.res_map)),
          f (works_on u),
        );
        once = keys-put_once u t r b.res_map i.once;
        right = omega (
          arith,
          i.right,
          i.carried,
          wrong_entries-put t r b.res_map,
          total_at carries_wrong front t (computed r) back b.workers a,
        );
        carried = omega (arith, i.carried, f carries_wrong);
        uncancelled = i.uncancelled;
      }
  Step-Kept {b} (publish front t r back a) k i =
      let f = λ (w : Worker → ℕ). total_moved w front t (kept r) published back b.workers a in
      record {
        covered = λ z. omega (arith, i.covered z, f (works_on u));
        once = i.once;
        right = i.right;
        carried = omega (arith, i.carried, f carries_wrong);
        uncancelled = i.uncancelled;
      }
  Step-Kept {b} (release front t back n a e) k i =
      let f = λ (w : Worker → ℕ). total_moved w front t published released back b.workers a in
      record {
        covered = λ z. omega (arith, i.covered z, f (works_on u));
        once = i.once;
        right = i.right;
        carried = omega (arith, i.carried, f carries_wrong);
        uncancelled = i.uncancelled;
      }
  Step-Kept {b} (finish front t back n a e) k i =
      let f = λ (w : Worker → ℕ). total_moved w front t released finished back b.workers a in
      record {
        covered = λ z. omega (arith, i.covered z, f (works_on u));
        once = i.once;
        right = i.right;
        carried = omega (arith, i.carried, f carries_wrong);
        uncancelled = i.uncancelled;
      }

  pub Reach-Kept : {b : Batch} → Reach limit tags b → Kept tags u b
  unfolding total count wrong_entries keys
  Reach-Kept begun = record {
    covered = λ k. omega arith;
    once = omega arith;
    right = refl;
    carried = refl;
    uncancelled = λ e. refl;
  }
  Reach-Kept (later r s) = Step-Kept s (batch-Reach limit tags r) (Reach-Kept r)
