-- ===== src/Mobile/Command.antt =====
-- mobile/command.go: the groups of an instance and the commands on them. A tag is a text.
pub mod Grouped
use nunya_core.Common.{
  ℕ, ◌+◌, ◌-◌, ◌%◌, ◌^◌, Bool, true, false, not, ◌&&◌, ◌||◌, Option, none, some, List, [], ◌∷◌,
  ◌++◌, ◌==◌, if◌then◌else◌, eq_text, codes, map,
}

pub data Kind : Type 0 where
  selector : Kind
  url_test : Kind
  other_group : Kind
  plain : Kind

pub record Outbound : Type 0 where
  pub tag : List ℕ
  pub type_ : List ℕ
  pub kind : Kind
  pub now : List ℕ
  pub all : List (List ℕ)  -- the tags of a group's members
  pub real_tag : List ℕ  -- what group.RealTag makes of it

-- The outbounds by tag, the histories by tag, and what the cache file has for a group's tag.
pub record Instance : Type 0 where
  pub running : Bool
  pub outbounds : List Outbound
  pub outbound : List ℕ → Option Outbound
  pub history : List ℕ → Option (ℕ × ℕ)  -- seconds and delay
  pub group_expand : List ℕ → Option Bool

pub record Item : Type 0 where
  pub tag : List ℕ
  pub type_ : List ℕ
  pub url_test_time : ℕ
  pub url_test_delay : ℕ

pub record Group : Type 0 where
  pub tag : List ℕ
  pub type_ : List ℕ
  pub selectable : Bool
  pub selected : List ℕ
  pub is_expand : Bool
  pub item_list : List Item

abbrev pub is_group : Kind → Bool
is_group plain = false
is_group _ = true

abbrev pub is_selector : Kind → Bool
is_selector selector = true
is_selector _ = false

abbrev pub item_of : List ℕ → Outbound → Option (ℕ × ℕ) → Item
item_of tag o none = record { tag = tag; type_ = o.type_; url_test_time = 0; url_test_delay = 0 }
item_of tag o (some (seconds, delay)) = record {
  tag = tag;
  type_ = o.type_;
  url_test_time = seconds;
  url_test_delay = delay % 2 ^ 32;
}

-- A member that is loaded.
abbrev pub add_item : Instance → List ℕ → Option Outbound → List Item → List Item
add_item i tag none items = items
add_item i tag (some o) items = item_of tag o (i.history o.real_tag) ∷ items

unfoldable pub items_of : Instance → List (List ℕ) → List Item
items_of i [] = []
items_of i (tag ∷ tags) = add_item i tag (i.outbound tag) (items_of i tags)

abbrev pub expanded : Option Bool → Bool
expanded none = false
expanded (some e) = e

abbrev pub group_of : Instance → Outbound → List Item → Group
group_of i o items = record {
  tag = o.tag;
  type_ = o.type_;
  selectable = is_selector o.kind;
  selected = o.now;
  is_expand = expanded (i.group_expand o.tag);
  item_list = items;
}

abbrev pub add_group : Instance → Outbound → List Item → List Group → List Group
add_group i o [] groups = groups
add_group i o (item ∷ items) groups = group_of i o (item ∷ items) ∷ groups

unfoldable pub groups_of : Instance → List Outbound → List Group
unfolding items_of
groups_of i [] = []
groups_of i (o ∷ outbounds) =
    let groups = groups_of i outbounds in
    if is_group o.kind then add_group i o (items_of i o.all) groups else groups

unfoldable pub groups : Instance → List Group
unfolding groups_of
groups i = if not i.running then [] else groups_of i i.outbounds

pub data CommandError : Type 0 where
  not_running : CommandError
  not_found : CommandError
  not_a_selector : CommandError
  not_in_selector : CommandError

-- With what SelectOutbound of the selector answers: an error, or none; and the call, if it is made.
abbrev pub select_in :
    (List ℕ → List ℕ → Bool)
    → List ℕ
    → List ℕ
    → Option Outbound
    → Option CommandError × Option (List ℕ × List ℕ)
select_in accepts group_tag outbound_tag none = (some not_found, none)
select_in accepts group_tag outbound_tag (some o) =
    if not (is_selector o.kind)
    then (some not_a_selector, none)
    else if accepts group_tag outbound_tag
    then (none, some (group_tag, outbound_tag))
    else (some not_in_selector, some (group_tag, outbound_tag))

unfoldable pub select_outbound :
    (List ℕ → List ℕ → Bool)
    → Instance
    → List ℕ
    → List ℕ
    → Option CommandError × Option (List ℕ × List ℕ)
select_outbound accepts i group_tag outbound_tag =
    if not i.running
    then (some not_running, none)
    else select_in accepts group_tag outbound_tag (i.outbound group_tag)

-- The goroutine that URLTestGroup starts.
pub data Test : Type 0 where
  check_outbounds : Test
  test_members : List Outbound → Test
  test_one : List ℕ → Test

abbrev pub add_member : Option Outbound → List Outbound → List Outbound
add_member none members = members
add_member (some o) members = o ∷ members

unfoldable pub members_of : Instance → List (List ℕ) → List Outbound
members_of i [] = []
members_of i (tag ∷ tags) = add_member (i.outbound tag) (members_of i tags)

abbrev pub test_of : Instance → List ℕ → Outbound → Kind → Test
test_of i group_tag o url_test = check_outbounds
test_of i group_tag o selector = test_members (members_of i o.all)
test_of i group_tag o other_group = test_members (members_of i o.all)
test_of i group_tag o plain = test_one group_tag

abbrev pub url_test_found : Instance → List ℕ → Option Outbound → Option CommandError × Option Test
url_test_found i group_tag none = (some not_found, none)
url_test_found i group_tag (some o) = (none, some (test_of i group_tag o o.kind))

unfoldable pub url_test_group : Instance → List ℕ → Option CommandError × Option Test
unfolding members_of
url_test_group i group_tag =
    if not i.running
    then (some not_running, none)
    else url_test_found i group_tag (i.outbound group_tag)
