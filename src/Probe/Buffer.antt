-- ===== src/Probe/Buffer.antt =====
-- internal/probe/probe.go: resultBuffer. A result is a pointer, a number; each method holds the
-- mutex from its first look at the results to its return.
use nunya_core.Common.{
  ℕ, ◌+◌, ◌≤◌, ◌≡◌, refl, Bool, false, ◌||◌, List, [], ◌∷◌, ◌++◌, if◌then◌else◌, ◌==◌, arith,
  contains, count, count-append, Bool-cases, ==_iff, inl, inr, ap,
}

unfoldable pub add_result : ℕ → List ℕ → List ℕ
add_result r results = results ++ (r ∷ [])

-- The result is what is handed out and what stays.
abbrev pub take_results : List ℕ → List ℕ × List ℕ
take_results results = (results, [])

unfoldable pub keep_others : List ℕ → List ℕ → List ℕ
unfolding contains
keep_others owned [] = []
keep_others owned (r ∷ results) =
    let kept = keep_others owned results in if contains owned r then kept else r ∷ kept

unfoldable pub reclaim : List ℕ → List ℕ → List ℕ
unfolding keep_others
reclaim [] results = results
reclaim (r ∷ owned) [] = []
reclaim (r ∷ owned) (x ∷ results) = keep_others (r ∷ owned) (x ∷ results)

-- The calls on one buffer, in the order in which they get the mutex.
pub data Call : Type 0 where
  add : ℕ → Call
  drain : Call
  take_back : List ℕ → Call

-- What is handed out by all calls, and what is left in the buffer.
unfoldable pub run : List Call → List ℕ → List ℕ × List ℕ
unfolding add_result reclaim
run [] results = ([], results)
run (add r ∷ calls) results = run calls (add_result r results)
run (drain ∷ calls) results =
    let (handed, left) = run calls [] in ((take_results results).0 ++ handed, left)
run (take_back owned ∷ calls) results = run calls (reclaim owned results)

unfoldable pub added : ℕ → List Call → ℕ
added r [] = 0
added r (add x ∷ calls) = (if x == r then 1 else 0) + added r calls
added r (drain ∷ calls) = added r calls
added r (take_back owned ∷ calls) = added r calls

unfoldable pub is_owned : ℕ → List Call → Bool
unfolding contains
is_owned r [] = false
is_owned r (add x ∷ calls) = is_owned r calls
is_owned r (drain ∷ calls) = is_owned r calls
is_owned r (take_back owned ∷ calls) = contains owned r || is_owned r calls

count-keep_others :
    (owned results : List ℕ) (r : ℕ)
    → count r (keep_others owned results) ≡ (if contains owned r then 0 else count r results)
unfolding keep_others count contains
count-keep_others owned [] r = ground arith
count-keep_others owned (x ∷ results) r = elim (Bool-cases (x == r)) [
  | inl e ↦
      ground (arith, count-keep_others owned results r, ap (contains owned) ((==_iff x r).0 e))
  | inr e ↦ ground (arith, count-keep_others owned results r)
]

count-reclaim :
    (owned results : List ℕ) (r : ℕ)
    → count r (reclaim owned results) ≡ (if contains owned r then 0 else count r results)
unfolding reclaim count contains
count-reclaim [] results r = refl
count-reclaim (o ∷ owned) [] r = ground arith
count-reclaim (o ∷ owned) (x ∷ results) r = count-keep_others (o ∷ owned) (x ∷ results) r

-- However the calls on a buffer are ordered, a result is handed out or left no more often than it
-- was in the buffer or added, and exactly as often if no call takes it back.
pub count-run :
    (calls : List Call) (results : List ℕ) (r : ℕ)
    → (count r (run calls results).0 + count r (run calls results).1
        ≤ count r results + added r calls)
      × (is_owned r calls ≡ false
          → count r (run calls results).0 + count r (run calls results).1
            ≡ count r results + added r calls)
unfolding run added is_owned count contains
count-run [] results r = (omega arith, λ h. omega arith)
count-run (add x ∷ calls) results r =
    ground (arith, count-run calls (add_result x results) r, count-append r results (x ∷ []))
count-run (drain ∷ calls) results r =
    ground (arith, count-run calls [] r, count-append r results (run calls []).0)
count-run (take_back owned ∷ calls) results r =
    ground (arith, count-run calls (reclaim owned results) r, count-reclaim owned results r)
