-- ===== src/Probe/Batch.antt =====
-- internal/probe/probe.go: runBatch, its loop and its goroutines as a step relation. One step is
-- what a goroutine does up to the next point where another one may run. A tag is a number; what
-- `run` measures is a number, or nil.
pub mod Counted
pub mod Stored
pub mod Results
use nunya_core.Common.{
  ℕ, ◌+◌, ◌≡◌, ◌<◌, Bool, true, false, ◌||◌, Option, none, some, List, [], ◌∷◌, ◌++◌, if◌then◌else◌,
  ◌==◌, leb, length, map,
}

abbrev pub max_concurrent_tests : ℕ
max_concurrent_tests = 100

-- The int is the integer n, or -(n + 1).
pub data Concurrency : Type 0 where
  at_least_zero below_zero : ℕ → Concurrency

unfoldable pub normalize_concurrency : Concurrency → ℕ
normalize_concurrency (below_zero n) = max_concurrent_tests
normalize_concurrency (at_least_zero n) = if n == 0 || leb 500 n then max_concurrent_tests else n

-- A result says which call made it: `fail` with one of three errors, or `run`.
pub data Result : Type 0 where
  aborted missing no_result : ℕ → Result
  measured : ℕ → ℕ → Result

-- Where a goroutine is; the results may be nil.
pub data Phase : Type 0 where
  started : Phase
  computed kept : Option Result → Phase
  published released finished : Phase

pub record Worker : Type 0 where
  pub tag : ℕ
  pub phase : Phase

pub record Entry : Type 0 where
  pub tag : ℕ
  pub result : Option Result

pub record Batch : Type 0 where
  pub pending : List ℕ  -- the tags that the loop has not done
  pub passed : Bool  -- the first of them is past the select
  pub cancelled : Bool
  pub workers : List Worker
  pub res_map : List Entry  -- one entry for each tag that is there
  pub aborted_tags : ℕ  -- how often the loop stored an aborted result
  pub given : List (Option Result)  -- what was published
  pub tokens : ℕ  -- in the limiter
  pub wait : ℕ  -- the wait group

abbrev pub batch_start : List ℕ → Batch
batch_start tags = record {
  pending = tags;
  passed = false;
  cancelled = false;
  workers = [];
  res_map = [];
  aborted_tags = 0;
  given = [];
  tokens = 0;
  wait = length tags;
}

abbrev pub moved : List Worker → ℕ → Phase → List Worker → Batch → Batch
moved front t p back b = record b { workers = front ++ (record { tag = t; phase = p } ∷ back) }

abbrev pub At : Batch → List Worker → ℕ → Phase → List Worker → Type 0
At b front t p back = b.workers ≡ front ++ (record { tag = t; phase = p } ∷ back)

-- `resMap[tag] = res`
unfoldable pub put : ℕ → Option Result → List Entry → List Entry
put t r [] = record { tag = t; result = r } ∷ []
put t r (e ∷ es) =
    let rest = put t r es in if e.tag == t then record { tag = t; result = r } ∷ es else e ∷ rest

unfoldable pub store : ℕ → Option Result → Batch → Batch
unfolding put
store t r b = record b { res_map = put t r b.res_map }

abbrev pub ran : ℕ → Option ℕ → Option Result
ran t none = none
ran t (some n) = some (measured t n)

pub data Step (limit : ℕ) (b : Batch) : Batch → Type 0 where
  cancel : Step limit b (record b { cancelled = true })
  abort :
      (t : ℕ) (rest : List ℕ) (n : ℕ)
      → b.pending ≡ t ∷ rest
      → b.passed ≡ false
      → b.cancelled ≡ true
      → b.wait ≡ n + 1
      → Step limit b (record (store t (some (aborted t)) b) {
        pending = rest;
        wait = n;
        aborted_tags = b.aborted_tags + 1;
      })
  pass :
      (t : ℕ) (rest : List ℕ)
      → b.pending ≡ t ∷ rest
      → b.passed ≡ false
      → b.cancelled ≡ false
      → Step limit b (record b { passed = true })
  spawn :
      (t : ℕ) (rest : List ℕ)
      → b.pending ≡ t ∷ rest
      → b.passed ≡ true
      → b.tokens < limit
      → Step limit b (record b {
        pending = rest;
        passed = false;
        tokens = b.tokens + 1;
        workers = record { tag = t; phase = started } ∷ b.workers;
      })
  not_found :
      (front : List Worker) (t : ℕ) (back : List Worker)
      → At b front t started back
      → Step limit b (moved front t (computed (some (missing t))) back b)
  run :
      (front : List Worker) (t : ℕ) (back : List Worker) (o : Option ℕ)
      → At b front t started back
      → Step limit b (moved front t (computed (ran t o)) back b)
  keep :
      (front : List Worker) (t : ℕ) (r : Option Result) (back : List Worker)
      → At b front t (computed r) back
      → Step limit b (store t r (moved front t (kept r) back b))
  publish :
      (front : List Worker) (t : ℕ) (r : Option Result) (back : List Worker)
      → At b front t (kept r) back
      → Step limit b (record (moved front t published back b) { given = r ∷ b.given })
  release :
      (front : List Worker) (t : ℕ) (back : List Worker) (n : ℕ)
      → At b front t published back
      → b.tokens ≡ n + 1
      → Step limit b (record (moved front t released back b) { tokens = n })
  finish :
      (front : List Worker) (t : ℕ) (back : List Worker) (n : ℕ)
      → At b front t released back
      → b.wait ≡ n + 1
      → Step limit b (record (moved front t finished back b) { wait = n })

pub data Reach (limit : ℕ) (tags : List ℕ) : Batch → Type 0 where
  begun : Reach limit tags (batch_start tags)
  later : {b c : Batch} → Reach limit tags b → Step limit b c → Reach limit tags c

unfoldable pub lookup : ℕ → List Entry → Option (Option Result)
lookup t [] = none
lookup t (e ∷ es) = let rest = lookup t es in if e.tag == t then some e.result else rest

-- `!ok || r == nil`
abbrev pub or_no_result : ℕ → Option (Option Result) → Result
or_no_result t none = no_result t
or_no_result t (some none) = no_result t
or_no_result t (some (some r)) = r

-- What runBatch returns once Wait has returned.
unfoldable pub collect : List Entry → List ℕ → List Result
unfolding lookup
collect es tags = map (λ t. or_no_result t (lookup t es)) tags
