-- ===== src/Mobile/Command/Grouped.antt =====
-- The commands on the groups that are shown.
use nunya_core.Common.{
  ℕ, ◌≡◌, refl, sym, ap, Bool, true, false, Option, none, some, List, [], ◌∷◌, All, map,
  if◌then◌else◌, Bool-cases, inl, inr, arith, subst,
}
use nunya_core.Mobile.Command.{
  Kind, selector, url_test, other_group, plain, Outbound, Instance, Item, Group, is_group,
  is_selector, item_of, add_item, items_of, group_of, add_group, groups_of, groups, CommandError,
  select_outbound, Test, check_outbounds, test_members, add_member, members_of, test_of,
  url_test_group,
}

-- The manager of the outbounds yields an outbound under its own tag, and those that it lists.
pub record IsManaged (i : Instance) : Type 0 where
  pub named : (tag : List ℕ) (o : Outbound) → i.outbound tag ≡ some o → o.tag ≡ tag
  pub listed : All (λ (o : Outbound). i.outbound o.tag ≡ some o) i.outbounds

abbrev pub has_items : List Item → Bool
has_items [] = false
has_items (item ∷ items) = true

-- A url-test group checks itself; any other is tested by exactly the members that are shown.
abbrev pub TestPost : Group → Option CommandError × Option Test → Type 0
TestPost g (none, some check_outbounds) = g.selectable ≡ false
TestPost g (none, some (test_members members)) =
    map (λ (x : Item). x.tag) g.item_list ≡ map (λ (o : Outbound). o.tag) members
TestPost g _ = ⊥

abbrev pub GroupPost : (List ℕ → List ℕ → Bool) → List ℕ → Instance → Group → Type 0
GroupPost accepts t i g =
    (has_items g.item_list ≡ true)
    × TestPost g (url_test_group i g.tag)
    × ((select_outbound accepts i g.tag t).1 ≡ (if g.selectable then some (g.tag, t) else none))

item-tag :
    (tag : List ℕ) (o : Outbound) (history : Option (ℕ × ℕ)) → (item_of tag o history).tag ≡ tag
item-tag tag o none = refl
item-tag tag o (some h) = refl

module _ (accepts : List ℕ → List ℕ → Bool) (t : List ℕ) (i : Instance) (managed : IsManaged i)
    (runs : i.running ≡ true) where
  member_tags :
      (tag : List ℕ) (found : Option Outbound) (items : List Item) (members : List Outbound)
      → i.outbound tag ≡ found
      → map (λ (x : Item). x.tag) items ≡ map (λ (o : Outbound). o.tag) members
      → map (λ (x : Item). x.tag) (add_item i tag found items)
        ≡ map (λ (o : Outbound). o.tag) (add_member found members)
  member_tags tag none items members e h = h
  member_tags tag (some o) items members e h =
      cc (item-tag tag o (i.history o.real_tag), managed.named tag o e)

  items_tags :
      (tags : List (List ℕ))
      → map (λ (x : Item). x.tag) (items_of i tags)
        ≡ map (λ (o : Outbound). o.tag) (members_of i tags)
  unfolding items_of members_of
  items_tags [] = refl
  items_tags (tag ∷ tags) = member_tags tag (i.outbound tag) _ _ refl (items_tags tags)

  kind-TestPost :
      (o : Outbound) (k : Kind) (items : List Item)
      → o.kind ≡ k
      → is_group k ≡ true
      → items ≡ items_of i o.all
      → TestPost (group_of i o items) (none, some (test_of i o.tag o k))
  kind-TestPost o selector items e g q = rw q (items_tags o.all)
  kind-TestPost o url_test items e g q = ap is_selector e
  kind-TestPost o other_group items e g q = rw q (items_tags o.all)
  kind-TestPost o plain items e g q = cc

  group-GroupPost :
      (o : Outbound) (items : List Item)
      → i.outbound o.tag ≡ some o
      → is_group o.kind ≡ true
      → items ≡ items_of i o.all
      → has_items items ≡ true
      → GroupPost accepts t i (group_of i o items)
  unfolding url_test_group select_outbound
  group-GroupPost o items e g q h =
      (h, rw (runs, e) (kind-TestPost o o.kind items refl g q), rw (runs, e) (ground arith))

  added-GroupPost :
      (o : Outbound) (items : List Item) (rest : List Group)
      → i.outbound o.tag ≡ some o
      → is_group o.kind ≡ true
      → items ≡ items_of i o.all
      → All (GroupPost accepts t i) rest
      → All (GroupPost accepts t i) (add_group i o items rest)
  added-GroupPost o [] rest e g q h = h
  added-GroupPost o (item ∷ items) rest e g q h = (group-GroupPost o (item ∷ items) e g q refl, h)

  groups_of-GroupPost :
      (outbounds : List Outbound)
      → All (λ (o : Outbound). i.outbound o.tag ≡ some o) outbounds
      → All (GroupPost accepts t i) (groups_of i outbounds)
  unfolding groups_of
  groups_of-GroupPost [] l = tt
  groups_of-GroupPost (o ∷ outbounds) l = elim (Bool-cases (is_group o.kind)) [
    | inl g ↦
        subst
          (λ (b : Bool). All (GroupPost accepts t i) (
            if b
            then add_group i o (items_of i o.all) (groups_of i outbounds)
            else groups_of i outbounds))
          (sym g)
          (added-GroupPost o (items_of i o.all) (groups_of i outbounds) l.0 g refl
            (groups_of-GroupPost outbounds l.1))
    | inr g ↦
        subst
          (λ (b : Bool). All (GroupPost accepts t i) (
            if b
            then add_group i o (items_of i o.all) (groups_of i outbounds)
            else groups_of i outbounds))
          (sym g) (groups_of-GroupPost outbounds l.1)
  ]

-- Where the instance runs and the manager yields each outbound under its own tag: every group that
-- Groups shows has at least one item. URLTestGroup with its tag lets it check itself, if it is not
-- selectable, or tests outbounds with exactly the tags of its items, in order. SelectOutbound with
-- its tag hands the choice to the group exactly if it is selectable.
pub groups-GroupPost :
    (accepts : List ℕ → List ℕ → Bool) (t : List ℕ) (i : Instance)
    → IsManaged i
    → i.running ≡ true
    → All (GroupPost accepts t i) (groups i)
unfolding groups
groups-GroupPost accepts t i managed runs =
    simp runs (groups_of-GroupPost accepts t i managed runs i.outbounds managed.listed)
