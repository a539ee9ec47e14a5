-- ===== src/Mobile/CommandTests.antt =====
-- The monitor and the commands at concrete inputs.
use nunya_core.Common.{
  ℕ, ◌≡◌, ◌∙◌, sym, ap, some_cancel, refl, true, false, none, some, Option, List, [], ◌∷◌, All,
  codes, eq_text, if◌then◌else◌, arith, eq_text→eq, Bool-cases, inl, inr,
}
use nunya_core.Mobile.Monitor.{Interface, registers, unregisters, updates, run, new_monitor}
use nunya_core.Mobile.Monitor.Told.{keeps, last_told, IsTold, callback-IsTold}
use nunya_core.Mobile.Status.{Poll}
use nunya_core.Mobile.Command.{selector, plain, Outbound, Instance, groups}
use nunya_core.Mobile.Status.Polled.{polls, last_shown, RatesPost, polls_rates}
use nunya_core.Mobile.Command.Grouped.{GroupPost, groups-GroupPost}

abbrev wlan : Interface
wlan = record { name = codes "wlan0"; index = 3; details = 10 ∷ [] }

callback-IsTold_example :
    IsTold
      (run
        (registers 5 ∷ updates false false false (some wlan) ∷ unregisters 6 ∷ [])
        new_monitor).default_interface_initialized
      (last_told 5
        (run
          (registers 5 ∷ updates false false false (some wlan) ∷ unregisters 6 ∷ [])
          new_monitor).calls)
      (run
        (registers 5 ∷ updates false false false (some wlan) ∷ unregisters 6 ∷ [])
        new_monitor).default_interface
unfolding keeps
callback-IsTold_example =
    callback-IsTold 5 (updates false false false (some wlan) ∷ unregisters 6 ∷ []) refl

abbrev poll_of : ℕ → ℕ → Poll
poll_of up down = record {
  memory_total = 0;
  memory_inuse = 4096;
  goroutines = 9;
  running = true;
  connections = none;
  traffic = some (up, down);
  connections_len = 2;
}

polls_rates_example :
    RatesPost
      (100, 200)
      (last_shown (poll_of 150 500 ∷ poll_of 160 900 ∷ []) (100, 200))
      (polls
        (poll_of 100 200 ∷ poll_of 150 500 ∷ poll_of 160 900 ∷ [])
        (record { status_sampled = false; last_uplink_total = 0; last_downlink_total = 0 }))
polls_rates_example =
    polls_rates (poll_of 100 200) (poll_of 150 500 ∷ poll_of 160 900 ∷ []) 100 200 refl refl
      (omega arith) (omega arith) (omega arith)

abbrev node : Outbound
node = record {
  tag = codes "n";
  type_ = codes "vless";
  kind = plain;
  now = [];
  all = [];
  real_tag = codes "n";
}

abbrev choice : Outbound
choice = record {
  tag = codes "s";
  type_ = codes "selector";
  kind = selector;
  now = codes "n";
  all = codes "n" ∷ codes "lost" ∷ [];
  real_tag = codes "n";
}

abbrev by_tag : List ℕ → Option Outbound
by_tag tag =
    if eq_text tag (codes "n")
    then some node
    else if eq_text tag (codes "s")
    then some choice
    else none

abbrev running_instance : Instance
running_instance = record {
  running = true;
  outbounds = node ∷ choice ∷ [];
  outbound = by_tag;
  history = λ tag. some (1700000000, 80);
  group_expand = λ tag. none;
}

absurd_option : {A : Type 0} {a : A} → none ≡ some a → ⊥
absurd_option e = cc

same_tag :
    (tag : List ℕ) (n o : Outbound) → eq_text tag n.tag ≡ true → some n ≡ some o → o.tag ≡ tag
same_tag tag n o h e =
    ap (λ (x : Outbound). x.tag) (sym (some_cancel e)) ∙ sym (eq_text→eq tag n.tag h)

by_tag-named : (tag : List ℕ) (o : Outbound) → by_tag tag ≡ some o → o.tag ≡ tag
by_tag-named tag o e = elim (Bool-cases (eq_text tag (codes "n"))) [
  | inl h ↦ same_tag tag node o h (rw h at e)
  | inr h ↦ elim (Bool-cases (eq_text tag (codes "s"))) [
    | inl k ↦ same_tag tag choice o k (rw (h, k) at e)
    | inr k ↦ absurd (absurd_option (rw (h, k) at e))
  ]
]

groups-GroupPost_example :
    All (GroupPost (λ g t. true) (codes "n") running_instance) (groups running_instance)
groups-GroupPost_example =
    groups-GroupPost (λ g t. true) (codes "n") running_instance
      (record { named = by_tag-named; listed = unfold eq_text in (refl, (refl, tt)) }) refl
