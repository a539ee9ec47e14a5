-- ===== src/Process/Windows/Start/Opened.antt =====
-- Handles that are opened one after the other, and closed together.
use nunya_core.Common.{
  ℕ, ◌+◌, ◌≤◌, ◌≡◌, refl, subst, Bool, true, false, List, [], ◌∷◌, ◌++◌, All, Bool-cases, inl, inr,
  contains, contains-append, are_distinct, append-nil, arith,
}
use nunya_core.Process.Windows.Handles.{Api, World, set_inherit, tick, close, new_handle}
use nunya_core.Process.Windows.Handles.Leaves.{
  Leaves, same-Leaves, trans-Leaves, with_handle_eq, tick-Leaves, close-Leaves,
}
use nunya_core.Process.Windows.Start.{close_all, new_pipe, inherited}

unfoldable pub rev : List ℕ → List ℕ
rev [] = []
rev (h ∷ hs) = rev hs ++ (h ∷ [])

contains-rev : (hs : List ℕ) (t : ℕ) → contains hs t ≡ false → contains (rev hs) t ≡ false
unfolding rev contains
contains-rev [] t e = refl
contains-rev (h ∷ hs) t e = ground (arith, contains-rev hs t, contains-append (rev hs) (h ∷ []) t)

-- Handles that were opened in the order of the list are all closed.
pub close_all-Leaves :
    (hs : List ℕ) {w v : World}
    → are_distinct hs ≡ true
    → Leaves (rev hs) w v
    → Leaves [] w (close_all hs v)
unfolding close_all are_distinct rev
close_all-Leaves [] d a = a
close_all-Leaves (h ∷ hs) {w} {v} d a = close_all-Leaves hs (ground arith) (
    subst (λ (l : List ℕ). Leaves l w (close h v)) (append-nil (rev hs))
      (close-Leaves (rev hs) [] h (contains-rev hs h (ground arith)) a))

pub new_handle-Leaves :
    (e : Bool) (m : ℕ) (xs : List ℕ) {w u : World}
    → u.next ≡ m
    → Leaves xs w u
    → Leaves (m ∷ xs) w (new_handle e u)
new_handle-Leaves e m xs q a = record {
  handles = ground (arith, a.handles);
  faults = a.faults;
  later = omega (arith, a.later);
  kept = λ h l. ground (arith, a.kept h l, a.later);
}

pub new_pipe-Leaves :
    (m : ℕ) (xs : List ℕ) {w u : World}
    → u.next ≡ m
    → Leaves xs w u
    → Leaves ((m + 1) ∷ m ∷ xs) w (new_pipe u)
new_pipe-Leaves m xs q a =
    let b =
      new_handle-Leaves false (m + 1) (m ∷ xs) (omega arith) (new_handle-Leaves false m xs q a) in
    record { handles = b.handles; faults = b.faults; later = b.later; kept = b.kept }

-- The handles in the order that they were opened in, with the next one.
pub record Opened (n k : ℕ) (xs : List ℕ) (w u : World) : Type 0 where
  pub leaves : Leaves xs w u
  pub start : w.next ≤ n
  pub next : u.next ≡ n + k

pub inherited-Leaves :
    (api : Api) (fs : List ℕ) (u : World)
    → All (λ f. contains u.handles f ≡ true) fs
    → Leaves [] u (inherited api fs u).1 × ((inherited api fs u).1.next ≡ u.next)
unfolding inherited
inherited-Leaves api [] u h = (same-Leaves u, refl)
inherited-Leaves api (f ∷ fs) u h =
    let rest = inherited-Leaves api fs (tick u) h.1 in
    rw (with_handle_eq f u h.0) (elim (Bool-cases (api.succeeds set_inherit u.clock)) [
      | inl e ↦ rw e (trans-Leaves (tick-Leaves u) rest.0, rest.1)
      | inr e ↦ rw e (tick-Leaves u, refl)
    ])
