-- ===== src/Process/Windows/Tokens/Lowered.antt =====
-- The token that the child gets is not elevated, and every other one is closed.
use nunya_core.Common.{ℕ, ◌≡◌, refl, Bool, true, false, Option, none, some, List, [], ◌∷◌, contains}
use nunya_core.Process.Windows.Handles.{
  Sid, Api, World, Call, get_linked_token, tick, close, obtain, and_then, primary_token,
}
use nunya_core.Process.Windows.Handles.Leaves.{
  tick_after, Leaves, IsOld, same-Leaves, IsOld-Leaves, with_handle_eq, tick-Leaves, close-Leaves,
  Obtained, TokenPost, obtain-TokenPost, trans-TokenPost, or_else-TokenPost, within-TokenPost,
  Obtained-IsOld, Documented, is_elevated_eq, primary_token-TokenPost,
}
use nunya_core.Process.Windows.Sessions.{find_processes, with_snapshot, admin_groups}
use nunya_core.Process.Windows.Tokens.{
  token_of, unless_elevated, from_linked, from_source, unelevated, user_token, session_tokens,
  open_with_access, open_token_of, process_token, shell_tokens, of_shells, shell_token,
  call_restricted, create_restricted_token, if_lowered, if_medium, lower_token, restrict_primary,
  restricted_self_token, unprivileged_token,
}

module _ (api : Api) (doc : Documented api) where
  token_of-TokenPost : (c : Call) (w : World) → TokenPost false w (token_of api c w)
  unfolding token_of
  token_of-TokenPost c w = obtain-TokenPost _ _ false w (λ d. cc)

  checked-TokenPost :
      (h : ℕ) (w : World) (e : Bool)
      → IsOld h w
      → w.elevated h ≡ e
      → TokenPost true w (unless_elevated api h (e, tick w))
  checked-TokenPost h w true o q = tick-Leaves w
  checked-TokenPost h w false o q =
      trans-TokenPost true (primary_token api h (tick w)) (tick-Leaves w)
        (primary_token-TokenPost api doc h (tick w) (IsOld-Leaves (tick-Leaves w) o) true (λ d. q))

  from_linked-TokenPost :
      (src : ℕ) (w : World) → IsOld src w → TokenPost true w (from_linked api src w)
  unfolding from_linked
  from_linked-TokenPost src w o = rw (with_handle_eq src w o.open_) (
      within-TokenPost true (token_of api get_linked_token w) _
        (token_of-TokenPost get_linked_token w)
        (λ h u a.
          rw (is_elevated_eq api doc h u (Obtained-IsOld a))
            (checked-TokenPost h u (u.elevated h) (Obtained-IsOld a) refl)))

  sourced-TokenPost :
      (src : ℕ) (w : World) (e : Bool)
      → IsOld src w
      → w.elevated src ≡ e
      → TokenPost true w (from_source api src (e, tick w))
  sourced-TokenPost src w true o q =
      trans-TokenPost true (from_linked api src (tick w)) (tick-Leaves w)
        (from_linked-TokenPost src (tick w) (IsOld-Leaves (tick-Leaves w) o))
  sourced-TokenPost src w false o q = checked-TokenPost src w false o q

  unelevated-TokenPost :
      (src : ℕ) (w : World) → IsOld src w → TokenPost true w (unelevated api src w)
  unfolding unelevated
  unelevated-TokenPost src w o =
      rw (is_elevated_eq api doc src w o) (sourced-TokenPost src w (w.elevated src) o refl)

  user_token-TokenPost : (w : World) → TokenPost true w (user_token api w)
  unfolding user_token
  user_token-TokenPost w =
      within-TokenPost true _ (unelevated api) (token_of-TokenPost _ w)
        (λ h u a. unelevated-TokenPost h u (Obtained-IsOld a))

  session_tokens-TokenPost :
      (ids : List ℕ) (w : World) → TokenPost true w (session_tokens api ids w)
  unfolding session_tokens
  session_tokens-TokenPost [] w = same-Leaves w
  session_tokens-TokenPost (id ∷ ids) w =
      or_else-TokenPost true (user_token api w) (session_tokens api ids) (user_token-TokenPost w)
        (λ v a. session_tokens-TokenPost ids v)

  open_with_access-TokenPost : (w : World) → TokenPost false w (open_with_access api w)
  unfolding open_with_access
  open_with_access-TokenPost w =
      within-TokenPost false _ _ (obtain-TokenPost _ false false w (λ d. refl))
        (λ h u a. rw (with_handle_eq h u (Obtained-IsOld a).open_) (token_of-TokenPost _ u))

  process_token-TokenPost : (w : World) → TokenPost true w (process_token api w)
  unfolding process_token open_token_of
  process_token-TokenPost w =
      within-TokenPost true (open_token_of api w) (unelevated api)
        (or_else-TokenPost false (open_with_access api w) (open_with_access api)
          (open_with_access-TokenPost w) (λ v a. open_with_access-TokenPost v))
        (λ h u a. unelevated-TokenPost h u (Obtained-IsOld a))

  shell_tokens-TokenPost : (pids : List ℕ) (w : World) → TokenPost true w (shell_tokens api pids w)
  unfolding shell_tokens
  shell_tokens-TokenPost [] w = same-Leaves w
  shell_tokens-TokenPost (pid ∷ pids) w =
      or_else-TokenPost true (process_token api w) (shell_tokens api pids)
        (process_token-TokenPost w) (λ v a. shell_tokens-TokenPost pids v)

  snapshot-Leaves : (made : Bool) (w : World) → Leaves [] w (with_snapshot api made w).1
  unfolding contains obtain
  snapshot-Leaves false w = tick-Leaves w
  snapshot-Leaves true w =
      close-Leaves [] [] w.next refl (obtain-TokenPost true false false w (λ d. refl)).leaves

  shell_token-TokenPost : (w : World) → TokenPost true w (shell_token api w)
  unfolding shell_token find_processes
  shell_token-TokenPost w =
      let found = find_processes api w in
      trans-TokenPost true (of_shells api found) (snapshot-Leaves _ w)
        (shell_tokens-TokenPost _ found.1)

  call_restricted-TokenPost :
      (lua : Bool) (src : ℕ) (groups : List (Option Sid)) (w : World)
      → IsOld src w
      → TokenPost false w (call_restricted api lua src groups w)
  unfolding call_restricted
  call_restricted-TokenPost lua src groups w o =
      rw (with_handle_eq src w o.open_) (obtain-TokenPost _ _ false w (λ d. cc))

  restricted-TokenPost :
      (src : ℕ) (groups : List (Option Sid)) (w : World)
      → IsOld src w
      → TokenPost false w (create_restricted_token api src groups w)
  unfolding create_restricted_token
  restricted-TokenPost src groups w o =
      or_else-TokenPost false _ (call_restricted api false src groups)
        (call_restricted-TokenPost true src groups w o)
        (λ v a. call_restricted-TokenPost false src groups v (IsOld-Leaves a o))

  closed-Leaves : (t : ℕ) {w u : World} → Leaves (t ∷ []) w u → Leaves [] w (close t u)
  unfolding contains
  closed-Leaves t a = close-Leaves [] [] t refl a

  asked-TokenPost :
      (t : ℕ) (e : Bool) {w u : World}
      → Obtained false w t u
      → u.elevated t ≡ e
      → TokenPost true w (if_lowered t (e, tick u))
  asked-TokenPost t true a q = closed-Leaves t (tick_after a.leaves)
  asked-TokenPost t false a q = record {
    leaves = tick_after a.leaves;
    fresh = a.fresh;
    below = a.below;
    lowered = λ d. q;
  }

  ticked-Obtained : {t : ℕ} {w u : World} → Obtained false w t u → Obtained false w t (tick u)
  ticked-Obtained a = record {
    leaves = tick_after a.leaves;
    fresh = a.fresh;
    below = a.below;
    lowered = λ d. cc;
  }

  medium-TokenPost :
      (t : ℕ) (done : Bool) {w u : World}
      → Obtained false w t u
      → TokenPost true w (if_medium api t u done)
  medium-TokenPost t false a = closed-Leaves t (tick_after a.leaves)
  medium-TokenPost t true {w} {u} a =
      rw (is_elevated_eq api doc t (tick u) (Obtained-IsOld (ticked-Obtained a)))
        (asked-TokenPost t (u.elevated t) (ticked-Obtained a) refl)

  lowered-TokenPost :
      (w : World) (r : Option ℕ × World)
      → TokenPost false w r
      → TokenPost true w (and_then r (lower_token api))
  unfolding lower_token
  lowered-TokenPost w (none, v) a = a
  lowered-TokenPost w (some t, u) a =
      rw (with_handle_eq t u (Obtained-IsOld a).open_) (medium-TokenPost t _ a)

  primary-TokenPost :
      (t : ℕ) (w : World) (known : Bool)
      → IsOld t w
      → TokenPost true w (restrict_primary api t w known)
  primary-TokenPost t w false o = tick-Leaves w
  primary-TokenPost t w true o = trans-TokenPost true _ (tick-Leaves w) (
      lowered-TokenPost (tick w) _ (
        within-TokenPost false _ (primary_token api)
          (restricted-TokenPost t (admin_groups api.groups) (tick w)
            (IsOld-Leaves (tick-Leaves w) o))
          (λ h u a. primary_token-TokenPost api doc h u (Obtained-IsOld a) false (λ d. cc))))

  restricted_self-TokenPost :
      (self : ℕ) (w : World) → IsOld self w → TokenPost true w (restricted_self_token api self w)
  unfolding restricted_self_token
  restricted_self-TokenPost self w o =
      within-TokenPost true _ _ (primary_token-TokenPost api doc self w o false (λ d. cc)) (λ h u a.
        rw (with_handle_eq h u (Obtained-IsOld a).open_)
          (primary-TokenPost h u _ (Obtained-IsOld a)))

  pub unprivileged-TokenPost :
      (self : ℕ) (w : World) → IsOld self w → TokenPost true w (unprivileged_token api self w)
  unfolding unprivileged_token
  unprivileged-TokenPost self w o =
      or_else-TokenPost true _ _ (unelevated-TokenPost self w o) (λ v a.
        or_else-TokenPost true _ _ (session_tokens-TokenPost _ v) (λ u b.
          or_else-TokenPost true _ _ (shell_token-TokenPost u) (λ x c.
            restricted_self-TokenPost self x (IsOld-Leaves c (IsOld-Leaves b (IsOld-Leaves a o))))))
