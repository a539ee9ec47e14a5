-- ===== src/Rpc/AutoSelector/Targets.antt =====
-- Which groups an action changes, and when it answers no error.
use nunya_core.Common.{
  ℕ, ◌≡◌, ◌↔◌, refl, Bool, true, false, not, ◌&&◌, ◌||◌, List, [], ◌∷◌, ◌==◌, Bool-cases, inl, inr,
  arith, is_some,
}
use nunya_core.Rpc.AutoSelector.{
  Group, Action, recheck, unknown, select_member, no_error, is_target, has_tag, recheck_all,
  select_all, act, auto_selector_action,
}

module _ {S : Type 0} (check : S → S) (select : ℕ → S → Bool × S) where
  -- Group by group: the tag stays, and a group that is no target stays as it is.
  pub Untouched : ℕ → List (Group S) → List (Group S) → Type 0
  Untouched tag [] [] = Unit {0}
  Untouched tag [] (h ∷ hs) = ⊥
  Untouched tag (g ∷ gs) [] = ⊥
  Untouched tag (g ∷ gs) (h ∷ hs) =
      (h.tag ≡ g.tag) × (is_target check select tag g ≡ false → h ≡ g) × Untouched tag gs hs

  pub has_target : ℕ → List (Group S) → Bool
  has_target tag [] = false
  has_target tag (g ∷ gs) = is_target check select tag g || has_target tag gs

  pub all_accept : ℕ → ℕ → List (Group S) → Bool
  all_accept tag member [] = true
  all_accept tag member (g ∷ gs) =
      (not (is_target check select tag g) || (select member g.state).0) && all_accept tag member gs

  Untouched-refl : (tag : ℕ) (gs : List (Group S)) → Untouched tag gs gs
  unfolding Untouched
  Untouched-refl tag [] = tt
  Untouched-refl tag (g ∷ gs) = (refl, λ e. refl, Untouched-refl tag gs)

  recheck-Untouched :
      (tag : ℕ) (gs : List (Group S)) → Untouched tag gs (recheck_all check select tag gs)
  unfolding Untouched recheck_all
  recheck-Untouched tag [] = tt
  recheck-Untouched tag (g ∷ gs) = elim (Bool-cases (is_target check select tag g)) [
    | inl t ↦ rw t (refl, λ e. cc, recheck-Untouched tag gs)
    | inr t ↦ rw t (refl, λ e. refl, recheck-Untouched tag gs)
  ]

  select-Untouched :
      (tag member : ℕ) (gs : List (Group S))
      → Untouched tag gs (select_all check select tag member gs).1
  unfolding Untouched select_all
  select-Untouched tag member [] = tt
  select-Untouched tag member (g ∷ gs) = elim (Bool-cases (is_target check select tag g)) [
    | inr t ↦ rw t (refl, λ e. refl, select-Untouched tag member gs)
    | inl t ↦ elim (Bool-cases (select member g.state).0) [
      | inl a ↦ rw (t, a) (refl, λ e. cc, select-Untouched tag member gs)
      | inr a ↦ rw (t, a) (refl, λ e. cc, Untouched-refl tag gs)
    ]
  ]

  select_accepts :
      (tag member : ℕ) (gs : List (Group S))
      → is_some (select_all check select tag member gs).0 ≡ not (all_accept tag member gs)
  unfolding select_all all_accept
  select_accepts tag member [] = refl
  select_accepts tag member (g ∷ gs) = ground (arith, select_accepts tag member gs)

  has_target-tag :
      (tag : ℕ) (gs : List (Group S))
      → (tag == 0) ≡ false
      → has_target tag gs ≡ has_tag check select tag gs
  unfolding has_target has_tag
  has_target-tag tag [] e = refl
  has_target-tag tag (g ∷ gs) e = ground (arith, has_target-tag tag gs e)

  -- For all groups and whatever they answer: every group keeps its tag and its place, and one that
  -- is no target of the action is left as it is; a selection answers no error exactly if it has a
  -- target and every target accepts the member; a recheck answers no error exactly if it has a
  -- target; and an unknown action changes no group.
  pub auto_selector_action_targets :
      (tag member : ℕ) (action : Action) (gs : List (Group S))
      → Untouched tag gs (auto_selector_action check select tag action gs).1
        × (((auto_selector_action check select tag (select_member member) gs).0 ≡ no_error)
            ↔ ((has_target tag gs && all_accept tag member gs) ≡ true))
        × (((auto_selector_action check select tag recheck gs).0 ≡ no_error)
            ↔ (has_target tag gs ≡ true))
        × ((auto_selector_action check select tag unknown gs).1 ≡ gs)
  unfolding auto_selector_action Untouched has_target
  auto_selector_action_targets tag member action [] = (tt, ground arith, ground arith, refl)
  auto_selector_action_targets tag member action (g ∷ gs) = elim (Bool-cases (tag == 0)) [
    | inl z ↦ (
      rw z (act-Untouched action),
      ground (arith, select_accepts tag member (g ∷ gs)),
      ground arith,
      ground arith,
    )
    | inr z ↦ elim (Bool-cases (has_tag check select tag (g ∷ gs))) [
      | inl h ↦ (
        rw (z, h) (act-Untouched action),
        ground (arith, select_accepts tag member (g ∷ gs), has_target-tag tag (g ∷ gs) z),
        ground (arith, has_target-tag tag (g ∷ gs) z),
        ground arith,
      )
      | inr h ↦ (
        rw (z, h) (Untouched-refl tag (g ∷ gs)),
        ground (arith, has_target-tag tag (g ∷ gs) z),
        ground (arith, has_target-tag tag (g ∷ gs) z),
        ground arith,
      )
    ]
  ]
    where
      act-Untouched : (a : Action) → Untouched tag (g ∷ gs) (act check select tag a (g ∷ gs)).1
      act-Untouched recheck = recheck-Untouched tag (g ∷ gs)
      act-Untouched unknown = Untouched-refl tag (g ∷ gs)
      act-Untouched (select_member m) = select-Untouched tag m (g ∷ gs)
