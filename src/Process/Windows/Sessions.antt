-- ===== src/Process/Windows/Sessions.antt =====
-- internal/process/process_windows.go: candidateSessions, activeSessions, shellCandidates,
-- findProcesses and the groups of administrators. A process's session and the lists of sessions and
-- processes are answers of the Api.
pub mod Ordered
use nunya_core.Common.{
  ℕ, ◌+◌, ◌-◌, Bool, true, false, not, ◌&&◌, ◌||◌, Option, none, some, List, [], ◌∷◌, ◌++◌, ◌==◌,
  if◌then◌else◌, ltb, leb, map, length, contains, codes, eq_text, is_handle,
}
use nunya_core.Process.Windows.Handles.{
  Sid, Api, World, Call, create_snapshot, close, new_handle, tick,
}

-- The function `add`.
unfoldable pub add : List ℕ → ℕ → List ℕ
add out id =
    if id == 0 || id == 4294967295 then out else if contains out id then out else out ++ (id ∷ [])

unfoldable pub add_all : List ℕ → List ℕ → List ℕ
add_all out [] = out
add_all out (id ∷ ids) = add_all (add out id) ids

unfoldable pub active : List (ℕ × Bool) → List ℕ
active [] = []
active ((id, true) ∷ infos) = id ∷ active infos
active ((id, false) ∷ infos) = active infos

abbrev pub active_sessions : Option (List (ℕ × Bool)) → List ℕ
active_sessions none = []
active_sessions (some infos) = active infos

abbrev pub add_own : Option ℕ → List ℕ
add_own none = []
add_own (some id) = add [] id

unfoldable pub candidate_sessions : Api → List ℕ
candidate_sessions api =
    add_all (add (add_own api.own_session) api.console_session) (active_sessions api.sessions)

unfoldable pub in_session : (ℕ → Option ℕ) → ℕ → List ℕ → List ℕ
in_session session_of want [] = []
in_session session_of want (pid ∷ pids) =
    let out = in_session session_of want pids in
    if is_handle want (session_of pid) then pid ∷ out else out

unfoldable pub nearest_first : (ℕ → Option ℕ) → List ℕ → List ℕ → List ℕ
nearest_first session_of pids [] = []
nearest_first session_of pids (want ∷ prefer) =
    in_session session_of want pids ++ nearest_first session_of pids prefer

unfoldable pub shell_candidates : (ℕ → Option ℕ) → List ℕ → List ℕ → List ℕ
shell_candidates session_of pids [] = pids
shell_candidates session_of pids (want ∷ prefer) = nearest_first session_of pids (want ∷ prefer)

-- strings.EqualFold with a name of ASCII letters; no letter of "explorer.exe" has another fold.
abbrev pub lower : ℕ → ℕ
lower c = if leb 65 c && leb c 90 then c + 32 else c

unfoldable pub named : List ℕ → List (ℕ × List ℕ) → List ℕ
named name [] = []
named name ((pid, exe) ∷ entries) =
    let out = named name entries in if eq_text (map lower exe) name then pid ∷ out else out

-- A snapshot is a handle that is closed at the end.
abbrev pub with_snapshot : Api → Bool → World → List ℕ × World
with_snapshot api false w = ([], tick w)
with_snapshot api true w =
    (named (codes "explorer.exe") api.processes, close w.next (new_handle false w))

unfoldable pub find_processes : Api → World → List ℕ × World
find_processes api w = with_snapshot api (api.succeeds create_snapshot w.clock) w

unfoldable pub last_of : ℕ → List ℕ → ℕ
last_of a [] = a
last_of a (b ∷ bs) = last_of b bs

-- SubAuthority(0) is 21 and the last one is the RID of a group of administrators.
abbrev pub is_admin_rid : List ℕ → Bool
is_admin_rid [] = false
is_admin_rid (a ∷ []) = false
is_admin_rid (a ∷ b ∷ subs) =
    a == 21
    && (last_of b subs == 512
        || last_of b subs == 518
        || last_of b subs == 519
        || last_of b subs == 520)

abbrev pub is_admin_sid : Option Sid → Bool
is_admin_sid none = false
is_admin_sid (some s) = s.valid && (s.well_known || is_admin_rid s.sub_authorities)

unfoldable pub admin_groups : List (Option Sid) → List (Option Sid)
unfolding last_of
admin_groups [] = []
admin_groups (g ∷ groups) = let out = admin_groups groups in if is_admin_sid g then g ∷ out else out
