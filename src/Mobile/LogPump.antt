-- ===== src/Mobile/LogPump.antt =====
-- mobile/log.go: logPump, its callers and its goroutine as a step relation. One step is a critical
-- section, a call of the sink, or an operation on the channel. A sink and a line are numbers; the
-- goroutine keeps its batch and the sink that it read.
pub mod Delivered
pub mod Order
use nunya_core.Common.{
  ℕ, ◌+◌, ◌≡◌, ◌≢◌, Bool, true, false, Option, none, some, List, [], ◌∷◌, ◌++◌, if◌then◌else◌, ◌==◌,
  leb, length, is_some,
}

abbrev pub default_log_queue_lines : ℕ
default_log_queue_lines = 1024

-- Where the goroutine `run` is.
pub data Runner : Type 0 where
  not_started asleep awake : Runner
  writing : ℕ → List ℕ → Runner

pub record Pump : Type 0 where
  pub sink : Option ℕ
  pub limit : ℕ  -- 0 stands for a limit that is not positive
  pub pending : List ℕ
  pub notify : Bool  -- the channel's one slot
  pub runner : Runner
  pub written : List ℕ  -- the lines that sinks were given, in order
  pub setters : ℕ  -- calls of setSink before once.Do
  pub wakers : ℕ  -- calls of setSink and push before wake

abbrev pub new_pump : Pump
new_pump = record {
  sink = none;
  limit = 0;
  pending = [];
  notify = false;
  runner = not_started;
  written = [];
  setters = 0;
  wakers = 0;
}

unfoldable pub limit_of : Pump → ℕ
limit_of p = if p.limit == 0 then default_log_queue_lines else p.limit

-- `p.pending[1:]`
abbrev pub tail : List ℕ → List ℕ
tail [] = []
tail (x ∷ xs) = xs

-- The locked part of push, with a sink.
unfoldable pub enqueue : ℕ → Pump → Pump
unfolding limit_of
enqueue line p = record p {
  pending =
      (if leb (limit_of p) (length p.pending) then tail p.pending else p.pending) ++ (line ∷ []);
}

abbrev pub push_to : Option ℕ → ℕ → Pump → Pump
push_to none line p = p
push_to (some s) line p = record (enqueue line p) { wakers = p.wakers + 1 }

abbrev pub push : ℕ → Pump → Pump
push line p = push_to p.sink line p

-- `once.Do`
abbrev pub start_runner : Runner → Runner
start_runner not_started = asleep
start_runner asleep = asleep
start_runner awake = awake
start_runner (writing s batch) = writing s batch

abbrev pub set_sink : Option ℕ → Pump → Pump
set_sink none p = record p { sink = none }
set_sink (some s) p = record p { sink = some s; setters = p.setters + 1 }

-- The locked part of the inner loop of run.
abbrev pub take_for : Option ℕ → List ℕ → Pump → Pump
take_for none batch p = record p { pending = []; runner = asleep }
take_for (some s) [] p = record p { pending = []; runner = asleep }
take_for (some s) (line ∷ lines) p = record p { pending = []; runner = writing s (line ∷ lines) }

abbrev pub take_batch : Pump → Pump
take_batch p = take_for p.sink p.pending p

pub data Step (p : Pump) : Pump → Type 0 where
  sets_sink : (sink : Option ℕ) → Step p (set_sink sink p)
  sets_limit : (limit : ℕ) → Step p (record p { limit = limit })
  pushes : (line : ℕ) → Step p (push line p)
  starts :
      (n : ℕ)
      → p.setters ≡ n + 1
      → Step p (record p { runner = start_runner p.runner; setters = n; wakers = p.wakers + 1 })
  wakes : (n : ℕ) → p.wakers ≡ n + 1 → Step p (record p { notify = true; wakers = n })
  wakes_up :
      p.runner ≡ asleep → p.notify ≡ true → Step p (record p { notify = false; runner = awake })
  takes : p.runner ≡ awake → Step p (take_batch p)
  writes :
      (s line : ℕ) (lines : List ℕ)
      → p.runner ≡ writing s (line ∷ lines)
      → Step p (record p { runner = writing s lines; written = p.written ++ (line ∷ []) })
  batch_ends : (s : ℕ) → p.runner ≡ writing s [] → Step p (record p { runner = awake })

-- The line that a step puts in.
abbrev pub pushed_by : {p q : Pump} → Step p q → List ℕ
pushed_by (pushes line) = line ∷ []
pushed_by _ = []

-- The reachable states, after the lines given to push so far.
pub data Reach : List ℕ → Pump → Type 0 where
  idle : Reach [] new_pump
  then_ : {ls : List ℕ} {p q : Pump} → Reach ls p → (s : Step p q) → Reach (ls ++ pushed_by s) q
