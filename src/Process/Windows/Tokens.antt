-- ===== src/Process/Windows/Tokens.antt =====
-- internal/process/process_windows.go: the tokens that unprivilegedToken tries, in order. An error is
-- `none`, without its text.
pub mod Lowered
use nunya_core.Common.{ℕ, Bool, true, false, Option, none, some, List, [], ◌∷◌, if◌then◌else◌}
use nunya_core.Process.Windows.Handles.{
  Sid, Api, World, Call, open_process_token, get_linked_token, wts_query_user_token, open_process,
  get_token_groups, set_integrity, tick, with_handle, close, obtain, and_then, or_else, within,
  is_elevated, primary_token,
}
use nunya_core.Process.Windows.Sessions.{
  candidate_sessions, shell_candidates, find_processes, admin_groups,
}

-- A token from a call, as elevated as the system says.
unfoldable pub token_of : Api → Call → World → Option ℕ × World
token_of api c w = obtain (api.succeeds c w.clock) (api.elevated w.clock) w

abbrev pub unless_elevated : Api → ℕ → Bool × World → Option ℕ × World
unless_elevated api h (true, w) = (none, w)
unless_elevated api h (false, w) = primary_token api h w

unfoldable pub from_linked : Api → ℕ → World → Option ℕ × World
from_linked api src w =
    within (token_of api get_linked_token (with_handle src w))
      (λ linked u. unless_elevated api linked (is_elevated api linked u))

abbrev pub from_source : Api → ℕ → Bool × World → Option ℕ × World
from_source api src (true, w) = from_linked api src w
from_source api src (false, w) = primary_token api src w

unfoldable pub unelevated : Api → ℕ → World → Option ℕ × World
unelevated api src w = from_source api src (is_elevated api src w)

unfoldable pub user_token : Api → World → Option ℕ × World
user_token api w = within (token_of api wts_query_user_token w) (unelevated api)

unfoldable pub session_tokens : Api → List ℕ → World → Option ℕ × World
session_tokens api [] w = (none, w)
session_tokens api (id ∷ ids) w = or_else (user_token api w) (session_tokens api ids)

abbrev pub session_token : Api → World → Option ℕ × World
session_token api w = session_tokens api (candidate_sessions api) w

-- One access mask; the process handle is closed at once.
unfoldable pub open_with_access : Api → World → Option ℕ × World
open_with_access api w =
    within (obtain (api.succeeds open_process w.clock) false w)
      (λ proc u. token_of api open_process_token (with_handle proc u))

unfoldable pub open_token_of : Api → World → Option ℕ × World
open_token_of api w = or_else (open_with_access api w) (open_with_access api)

unfoldable pub process_token : Api → World → Option ℕ × World
process_token api w = within (open_token_of api w) (unelevated api)

unfoldable pub shell_tokens : Api → List ℕ → World → Option ℕ × World
shell_tokens api [] w = (none, w)
shell_tokens api (pid ∷ pids) w = or_else (process_token api w) (shell_tokens api pids)

abbrev pub of_shells : Api → List ℕ × World → Option ℕ × World
of_shells api (pids, w) =
    shell_tokens api (shell_candidates api.session_of pids (candidate_sessions api)) w

unfoldable pub shell_token : Api → World → Option ℕ × World
shell_token api w = of_shells api (find_processes api w)

-- The function `call`, with LUA_TOKEN or without.
unfoldable pub call_restricted : Api → Bool → ℕ → List (Option Sid) → World → Option ℕ × World
call_restricted api lua src disable w =
    obtain (api.restricts lua disable w.clock) (api.elevated w.clock) (with_handle src w)

unfoldable pub create_restricted_token : Api → ℕ → List (Option Sid) → World → Option ℕ × World
create_restricted_token api src disable w =
    or_else (call_restricted api true src disable w) (call_restricted api false src disable)

abbrev pub if_lowered : ℕ → Bool × World → Option ℕ × World
if_lowered tok (true, w) = (none, close tok w)
if_lowered tok (false, w) = (some tok, w)

abbrev pub if_medium : Api → ℕ → World → Bool → Option ℕ × World
if_medium api tok w false = (none, close tok (tick w))
if_medium api tok w true = if_lowered tok (is_elevated api tok (tick w))

-- setMediumIntegrity, then the check.
unfoldable pub lower_token : Api → ℕ → World → Option ℕ × World
lower_token api tok w = if_medium api tok (with_handle tok w) (api.succeeds set_integrity w.clock)

abbrev pub restrict_primary : Api → ℕ → World → Bool → Option ℕ × World
restrict_primary api primary w false = (none, tick w)
restrict_primary api primary w true =
    and_then
      (within (create_restricted_token api primary (admin_groups api.groups) (tick w))
        (primary_token api))
      (lower_token api)

unfoldable pub restricted_self_token : Api → ℕ → World → Option ℕ × World
restricted_self_token api self w = within (primary_token api self w) (λ primary u.
    restrict_primary api primary (with_handle primary u) (api.succeeds get_token_groups u.clock))

unfoldable pub unprivileged_token : Api → ℕ → World → Option ℕ × World
unprivileged_token api self w = or_else (unelevated api self w) (λ v.
    or_else (session_token api v)
      (λ u. or_else (shell_token api u) (restricted_self_token api self)))
