-- ===== src/Rpc/Vpn/Settled.antt =====
-- When a wait for a status ends, and what a poll of several endpoints answers.
use nunya_core.Common.{
  some_cancel, bind-eq-some, ℕ, ◌≡◌, ◌≢◌, refl, ap, sym, ◌∙◌, Bool, true, false, not, ◌&&◌, Option,
  none, some, List, [], ◌∷◌, ◌++◌, ◌==◌, map, arith, All, Bool-cases, inl, inr, ◌⊎◌, is_some,
  ==_refl,
}
use nunya_core.Rpc.Vpn.{
  EndpointStatus, Report, Wake, updated, deadline, context_done, Pass, seen, Watched, Resolved,
  unresolved, resolved, await_loop, await_vpn_status, status_of, status_to_proto,
  vpn_status_settled, collect_vpn_status, Endpoint, openvpn, openconnect, other_kind, Completion,
  complete_challenge, complete_form, cancel_challenge, cancel_auth_challenge, accepted,
  submit_vpn_challenge, cancel_vpn_challenge, is_browser_challenge,
}

-- The passes of a wait that ends with the report `r`.
abbrev pub Ends : ℕ → Report → List Pass → Type 0
Ends tag r passes =
    (before : List Pass) × (wake : Wake) × (after : List Pass) × (passes
      ≡ before ++ (seen r wake ∷ after))
    × All
        (λ p.
          (q : Report) × (p ≡ seen q updated)
          × (vpn_status_settled (status_to_proto tag q) ≡ false))
        before
    × ((vpn_status_settled (status_to_proto tag r) ≡ true) ⊎ (wake ≢ updated))

await_loop-Ends :
    (tag : ℕ) (passes : List Pass) (s : EndpointStatus)
    → await_loop tag passes ≡ some s
    → (r : Report) × (s ≡ status_to_proto tag r) × Ends tag r passes
unfolding await_loop
await_loop-Ends tag [] s e = cc
await_loop-Ends tag (seen r deadline ∷ passes) s e =
    (r, sym (some_cancel e), ([], deadline, passes, refl, tt, inr (λ x. cc)))
await_loop-Ends tag (seen r context_done ∷ passes) s e =
    (r, sym (some_cancel e), ([], context_done, passes, refl, tt, inr (λ x. cc)))
await_loop-Ends tag (seen r updated ∷ passes) s e =
    elim (Bool-cases (vpn_status_settled (status_to_proto tag r))) [
      | inl c ↦
          (r, sym (some_cancel (sym (settled_pass c) ∙ e)), ([], updated, passes, refl, tt, inl c))
      | inr c ↦
          let (q, same, (before, w, after, split_, quiet, why)) =
            await_loop-Ends tag passes s (sym (unsettled_pass c) ∙ e) in
          (
            q,
            same,
            (
              seen r updated ∷ before,
              w,
              after,
              ap (◌∷◌ (seen r updated)) split_,
              ((r, refl, c), quiet),
              why,
            ),
          )
    ]
  where
    settled_pass :
        vpn_status_settled (status_to_proto tag r) ≡ true
        → await_loop tag (seen r updated ∷ passes) ≡ some (status_to_proto tag r)
    settled_pass c = rw c refl

    unsettled_pass :
        vpn_status_settled (status_to_proto tag r) ≡ false
        → await_loop tag (seen r updated ∷ passes) ≡ await_loop tag passes
    unsettled_pass c = rw c refl

-- If awaitVPNStatus returns a status, it is that of the endpoint's report under the given tag:
-- without a timeout, of the report at once; with one, of the last report looked at, before which
-- each was unsettled and woken by a change, and which is settled or was looked at when the deadline
-- passed or the caller gave up.
pub await_vpn_status-Ends :
    (waits : Bool) (tag : ℕ) (w : Watched) (s : EndpointStatus)
    → await_vpn_status waits tag w ≡ some s
    → ((waits ≡ false) × (s ≡ status_to_proto tag w.now))
      ⊎ ((waits ≡ true) × ((r : Report) × (s ≡ status_to_proto tag r) × Ends tag r w.passes))
unfolding await_vpn_status
await_vpn_status-Ends false tag w s e = inl (refl, sym (some_cancel e))
await_vpn_status-Ends true tag w s e = inr (refl, await_loop-Ends tag w.passes s e)

abbrev pub tags_of : List EndpointStatus → List ℕ
tags_of = map (λ s. s.tag)

status_of-tag :
    (waits : Bool) (tag : ℕ) (r : Resolved) (s : EndpointStatus)
    → status_of waits tag r ≡ some s
    → s.tag ≡ tag
unfolding status_to_proto
status_of-tag waits tag (unresolved text) s e =
    ap (λ (s : EndpointStatus). s.tag) (sym (some_cancel e))
status_of-tag waits tag (resolved w) s e = elim (await_vpn_status-Ends waits tag w s e) [
  | inl (x, same) ↦ ap (λ (s : EndpointStatus). s.tag) same ∙ tag-status_to_proto tag w.now
  | inr (x, (r, same, ends)) ↦ ap (λ (s : EndpointStatus). s.tag) same ∙ tag-status_to_proto tag r
]
  where
    tag-status_to_proto : (tag : ℕ) (r : Report) → (status_to_proto tag r).tag ≡ tag
    tag-status_to_proto tag r = refl

-- If collectVPNStatus returns, its results are one for each tag, in the order of the tags, and each
-- carries its tag, whether its endpoint was found or not.
pub tags-collect_vpn_status :
    (resolve : ℕ → Resolved) (tags : List ℕ) (waits : Bool) (ss : List EndpointStatus)
    → collect_vpn_status resolve tags waits ≡ some ss
    → tags_of ss ≡ tags
unfolding collect_vpn_status
tags-collect_vpn_status resolve [] waits ss e = ap tags_of (sym (some_cancel e))
tags-collect_vpn_status resolve (t ∷ tags) waits ss e =
    let (s, e₁, r₁) = bind-eq-some (status_of waits t (resolve t)) _ e in
    let (others, e₂, r₂) = bind-eq-some (collect_vpn_status resolve tags waits) _ r₁ in
    ap tags_of (sym (some_cancel r₂))
    ∙ (ap (λ (n : ℕ). n ∷ tags_of others) (status_of-tag waits t (resolve t) s e₁)
        ∙ ap (◌∷◌ t) (tags-collect_vpn_status resolve tags waits others e₂))

abbrev pub is_client : Option Endpoint → Bool
is_client none = false
is_client (some openvpn) = true
is_client (some (openconnect c)) = true
is_client (some other_kind) = false

abbrev pub asks_browser : ℕ → Option Endpoint → Bool
asks_browser id (some (openconnect c)) = is_browser_challenge id c
asks_browser id _ = false

abbrev pub completes : ℕ → Option Completion → Bool
completes id none = false
completes id (some (complete_challenge c)) = c == id
completes id (some (complete_form c)) = c == id
completes id (some (cancel_challenge c)) = false
completes id (some (cancel_auth_challenge c)) = false

abbrev pub cancels : ℕ → Option Completion → Bool
cancels id none = false
cancels id (some (complete_challenge c)) = false
cancels id (some (complete_form c)) = false
cancels id (some (cancel_challenge c)) = c == id
cancels id (some (cancel_auth_challenge c)) = c == id

-- For every endpoint that may be found and whatever the call returns: SubmitVPNChallenge completes
-- the challenge of the request's id exactly if a client is found that does not ask for a browser
-- under that id, and makes no call otherwise; CancelVPNChallenge cancels it exactly if a client is
-- found, and makes no call otherwise; and a reply without an error means a call that succeeded.
pub submit_vpn_challenge_calls :
    (e : Option Endpoint) (id : ℕ) (succeeds : Bool)
    → (completes id (submit_vpn_challenge e id succeeds).1
        ≡ (is_client e && not (asks_browser id e)))
      × (is_some (submit_vpn_challenge e id succeeds).1 ≡ (is_client e && not (asks_browser id e)))
      × (cancels id (cancel_vpn_challenge e id succeeds).1 ≡ is_client e)
      × (is_some (cancel_vpn_challenge e id succeeds).1 ≡ is_client e)
      × ((submit_vpn_challenge e id succeeds).0 ≡ accepted → (is_client e && succeeds) ≡ true)
      × ((cancel_vpn_challenge e id succeeds).0 ≡ accepted → (is_client e && succeeds) ≡ true)
unfolding submit_vpn_challenge cancel_vpn_challenge
submit_vpn_challenge_calls e id succeeds = ground (arith, ==_refl id)
