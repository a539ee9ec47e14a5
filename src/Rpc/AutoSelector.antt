-- ===== src/Rpc/AutoSelector.antt =====
-- internal/rpc/autoselector.go, AutoSelectorAction. The groups of the running box are a list, in the
-- order in which Go goes over their map; a tag and a member are numbers, and 0 is the empty string.
-- A group's state is of any type, with `check` for CheckOutbounds and `select` for SelectOutbound.
pub mod Targets
use nunya_core.Common.{
  ℕ, ◌≡◌, refl, ap, sym, ◌∙◌, Bool, true, false, not, ◌&&◌, ◌||◌, Option, none, some, List, [], ◌∷◌,
  ◌==◌, if◌then◌else◌, map, All, Bool-cases, inl, inr, arith,
}

pub record Group (S : Type 0) : Type 0 where
  pub tag : ℕ
  pub state : S

pub data Action : Type 0 where
  recheck unknown : Action
  select_member : ℕ → Action

pub data ActionReply : Type 0 where
  no_error no_selector unknown_action : ActionReply
  no_tag : ℕ → ActionReply
  no_member : (member tag : ℕ) → ActionReply

module _ {S : Type 0} (check : S → S) (select : ℕ → S → Bool × S) where
  -- The group is one of the targets.
  abbrev pub is_target : ℕ → Group S → Bool
  is_target tag g = tag == 0 || g.tag == tag

  unfoldable pub has_tag : ℕ → List (Group S) → Bool
  has_tag tag [] = false
  has_tag tag (g ∷ groups) = g.tag == tag || has_tag tag groups

  unfoldable pub recheck_all : ℕ → List (Group S) → List (Group S)
  recheck_all tag [] = []
  recheck_all tag (g ∷ groups) =
      (if is_target tag g then record { tag = g.tag; state = check g.state } else g)
      ∷ recheck_all tag groups

  -- The loop stops at the first group that refuses the member, and answers its tag.
  unfoldable pub select_all : ℕ → ℕ → List (Group S) → Option ℕ × List (Group S)
  select_all tag member [] = (none, [])
  select_all tag member (g ∷ groups) =
      let rest = select_all tag member groups in
      let r = select member g.state in
      let new : Group S = record { tag = g.tag; state = r.1 } in
      if not (is_target tag g)
      then (rest.0, g ∷ rest.1)
      else if r.0
      then (rest.0, new ∷ rest.1)
      else (some g.tag, new ∷ groups)

  abbrev pub select_reply : ℕ → Option ℕ → ActionReply
  select_reply member none = no_error
  select_reply member (some tag) = no_member member tag

  abbrev pub act : ℕ → Action → List (Group S) → ActionReply × List (Group S)
  act tag recheck groups = (no_error, recheck_all tag groups)
  act tag unknown groups = (unknown_action, groups)
  act tag (select_member member) groups =
      let r = select_all tag member groups in (select_reply member r.0, r.1)

  unfoldable pub auto_selector_action : ℕ → Action → List (Group S) → ActionReply × List (Group S)
  unfolding has_tag recheck_all select_all
  auto_selector_action tag action [] = (no_selector, [])
  auto_selector_action tag action (g ∷ groups) =
      let done = act tag action (g ∷ groups) in
      if not (tag == 0) && not (has_tag tag (g ∷ groups)) then (no_tag tag, g ∷ groups) else done
