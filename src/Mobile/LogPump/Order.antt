-- ===== src/Mobile/LogPump/Order.antt =====
-- The lines that a sink is given are lines that were pushed, in that order.
use nunya_core.Common.{
  ℕ, ◌≡◌, refl, ap, sym, subst, ◌∙◌, Bool, true, false, Option, none, some, List, [], ◌∷◌, ◌++◌,
  if◌then◌else◌, length, append-nil, append_assoc, leb, Sublist, none_left, left_out, Sublist-refl,
  Sublist-nil, Sublist-trans, Sublist-append,
}
use nunya_core.Mobile.LogPump.{
  Pump, Runner, not_started, asleep, awake, writing, limit_of, enqueue, push_to, take_for,
  start_runner, Step, sets_sink, sets_limit, pushes, starts, wakes, wakes_up, takes, writes,
  batch_ends, Reach, idle, then_, tail, pushed_by,
}

-- What the goroutine has taken and not yet written.
abbrev in_hand : Runner → List ℕ
in_hand (writing s batch) = batch
in_hand _ = []

-- The lines on their way, the next one to be written first.
abbrev pub flow : Pump → List ℕ
flow p = p.written ++ (in_hand p.runner ++ p.pending)

Sublist-tail : (xs : List ℕ) → Sublist (tail xs) xs
Sublist-tail [] = none_left
Sublist-tail (x ∷ xs) = left_out x (Sublist-refl xs)

in_hand-start_runner : (r : Runner) → in_hand (start_runner r) ≡ in_hand r
in_hand-start_runner not_started = refl
in_hand-start_runner asleep = refl
in_hand-start_runner awake = refl
in_hand-start_runner (writing s b) = refl

if-Sublist : (b : Bool) (xs : List ℕ) → Sublist (if b then tail xs else xs) xs
if-Sublist true xs = Sublist-tail xs
if-Sublist false xs = Sublist-refl xs

-- Where nothing comes in.
same : (xs ys : List ℕ) → xs ≡ ys → Sublist xs (ys ++ [])
same xs ys e = subst (Sublist xs) (e ∙ sym (append-nil ys)) (Sublist-refl xs)

fewer : (xs ys : List ℕ) → Sublist xs ys → Sublist xs (ys ++ [])
fewer xs ys s = subst (Sublist xs) (sym (append-nil ys)) s

take_for-flow :
    (o : Option ℕ) (ls : List ℕ) (p : Pump)
    → p.pending ≡ ls
    → in_hand p.runner ≡ []
    → Sublist (flow (take_for o ls p)) (flow p)
take_for-flow none ls p a e = Sublist-append (Sublist-refl p.written) (Sublist-nil _)
take_for-flow (some s) [] p a e = Sublist-append (Sublist-refl p.written) (Sublist-nil _)
take_for-flow (some s) (l ∷ ls) p a e = Sublist-append (Sublist-refl p.written) (
    subst (λ (xs : List ℕ). Sublist xs (in_hand p.runner ++ p.pending)) (sym (append-nil (l ∷ ls)))
      (subst (Sublist (l ∷ ls)) (sym (ap (λ (h : List ℕ). h ++ p.pending) e ∙ a))
        (Sublist-refl (l ∷ ls))))

push_to-flow :
    (o : Option ℕ) (line : ℕ) (p : Pump) → Sublist (flow (push_to o line p)) (flow p ++ (line ∷ []))
unfolding enqueue
push_to-flow none line p =
    subst (λ (xs : List ℕ). Sublist xs (flow p ++ (line ∷ []))) (append-nil (flow p))
      (Sublist-append (Sublist-refl (flow p)) (Sublist-nil (line ∷ [])))
push_to-flow (some s) line p =
    let hand = in_hand p.runner in
    let full = leb (limit_of p) (length p.pending) in
    let rest = if full then tail p.pending else p.pending in
    subst (λ (xs : List ℕ). Sublist xs (flow p ++ (line ∷ [])))
      (append_assoc p.written (hand ++ rest) (line ∷ [])
        ∙ ap (λ (xs : List ℕ). p.written ++ xs) (append_assoc hand rest (line ∷ [])))
      (Sublist-append
        (Sublist-append (Sublist-refl p.written)
          (Sublist-append (Sublist-refl hand) (if-Sublist full p.pending)))
        (Sublist-refl (line ∷ [])))

-- A step leaves the lines on their way in order, and puts what it pushes behind them.
Step-flow : {p q : Pump} (s : Step p q) → Sublist (flow q) (flow p ++ pushed_by s)
Step-flow (sets_sink none) = same _ _ refl
Step-flow (sets_sink (some s)) = same _ _ refl
Step-flow (sets_limit n) = same _ _ refl
Step-flow {p} (pushes line) = push_to-flow p.sink line p
Step-flow {p} (starts n e) =
    same _ _ (ap (λ (h : List ℕ). p.written ++ (h ++ p.pending)) (in_hand-start_runner p.runner))
Step-flow (wakes n e) = same _ _ refl
Step-flow {p} (wakes_up e n) =
    same _ _ (ap (λ (r : Runner). p.written ++ (in_hand r ++ p.pending)) (sym e))
Step-flow {p} (takes e) = fewer _ _ (take_for-flow p.sink p.pending p refl (ap in_hand e))
Step-flow {p} (writes s l ls e) = same _ _ (
    append_assoc p.written (l ∷ []) (ls ++ p.pending)
    ∙ ap (λ (r : Runner). p.written ++ (in_hand r ++ p.pending)) (sym e))
Step-flow {p} (batch_ends s e) =
    same _ _ (ap (λ (r : Runner). p.written ++ (in_hand r ++ p.pending)) (sym e))

-- In a reachable state, the lines that sinks were given, then those in the goroutine's hands, then
-- those queued are among the lines pushed so far, in the order of the pushes.
pub flow-Reach : {ls : List ℕ} {p : Pump} → Reach ls p → Sublist (flow p) ls
flow-Reach idle = none_left
flow-Reach (then_ {ls} {p} r s) =
    Sublist-trans (Step-flow s) (Sublist-append (flow-Reach r) (Sublist-refl (pushed_by s)))
