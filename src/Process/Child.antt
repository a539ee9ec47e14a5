-- ===== src/Process/Child.antt =====
-- internal/process: childEnv of process.go, and startChild, applyPrivilegeDrop, supplementaryGroups
-- and userEnv of process_unix.go. A variable is its text "name=value"; the process's ids, its
-- environment and what the user database answers are the record System.
pub mod Kept
pub mod Dropped
use nunya_core.Common.{
  ℕ, ◌-◌, ◌%◌, ◌^◌, Bool, true, false, not, ◌&&◌, ◌||◌, Option, none, some, List, [], ◌∷◌, ◌++◌,
  ◌==◌, if◌then◌else◌, leb, map, codes, is_prefix, has_text,
}

-- What user.LookupId yields; `groups` is the answer of GroupIds, each with what Atoi makes of it.
pub record User : Type 0 where
  pub home_dir : List ℕ
  pub username : List ℕ
  pub groups : Option (List (Option ℕ))

pub record System : Type 0 where
  pub euid : ℕ
  pub ruid : ℕ
  pub rgid : ℕ
  pub environ : List (List ℕ)
  pub user : Option User

abbrev pub before : ℕ → Option (List ℕ) → Option (List ℕ)
before c none = none
before c (some name) = some (c ∷ name)

-- strings.Cut at "=" (61): what stands before it, if there is one.
unfoldable pub cut_name : List ℕ → Option (List ℕ)
cut_name [] = none
cut_name (c ∷ text) = let rest = cut_name text in if c == 61 then some [] else before c rest

-- strings.ToUpper. No letter but n, u, y and a has N, U, Y or A for its capital, so that only those
-- of ASCII matter here.
abbrev pub upper : ℕ → ℕ
upper c = if leb 97 c && leb c 122 then c - 32 else c

abbrev pub has_secret_name : Option (List ℕ) → Bool
has_secret_name none = false
has_secret_name (some name) = is_prefix (codes "NUNYA") (map upper name)

unfoldable pub child_env : List (List ℕ) → List (List ℕ)
unfolding cut_name is_prefix
child_env [] = []
child_env (kv ∷ parent) =
    let out = child_env parent in if has_secret_name (cut_name kv) then out else kv ∷ out

abbrev pub user_names : List (List ℕ)
user_names = codes "HOME" ∷ codes "USER" ∷ codes "LOGNAME" ∷ []

abbrev pub is_user_name : Option (List ℕ) → Bool
is_user_name none = false
is_user_name (some name) = has_text user_names name

unfoldable pub without_user : List (List ℕ) → List (List ℕ)
unfolding cut_name has_text
without_user [] = []
without_user (kv ∷ env) =
    let out = without_user env in if is_user_name (cut_name kv) then out else kv ∷ out

abbrev pub user_env : Option User → List (List ℕ) → List (List ℕ)
user_env none env = env
user_env (some u) env =
    without_user env
    ++ ((codes "HOME=" ++ u.home_dir)
        ∷ (codes "USER=" ++ u.username)
        ∷ (codes "LOGNAME=" ++ u.username)
        ∷ [])

unfoldable pub parsed : List (Option ℕ) → List ℕ
parsed [] = []
parsed (none ∷ ids) = parsed ids
parsed (some n ∷ ids) = (n % 2 ^ 32) ∷ parsed ids

abbrev pub or_fallback : ℕ → List ℕ → List ℕ
or_fallback rgid [] = (rgid % 2 ^ 32) ∷ []
or_fallback rgid (g ∷ groups) = g ∷ groups

abbrev pub groups_of : ℕ → Option (List (Option ℕ)) → List ℕ
groups_of rgid none = (rgid % 2 ^ 32) ∷ []
groups_of rgid (some ids) = or_fallback rgid (parsed ids)

abbrev pub supplementary_groups : ℕ → Option User → List ℕ
supplementary_groups rgid none = (rgid % 2 ^ 32) ∷ []
supplementary_groups rgid (some u) = groups_of rgid u.groups

pub record Credential : Type 0 where
  pub uid : ℕ
  pub gid : ℕ
  pub groups : List ℕ

pub record Cmd : Type 0 where
  pub env : List (List ℕ)
  pub credential : Option Credential

abbrev pub new_cmd : System → Cmd
new_cmd s = record { env = child_env s.environ; credential = none }

-- `none` is the refusal to start as root.
unfoldable pub apply_privilege_drop : System → Cmd → Option Cmd
unfolding without_user parsed
apply_privilege_drop s cmd =
    if not (s.euid == 0)
    then some cmd
    else if s.ruid == 0
    then none
    else some (record {
      env = user_env s.user cmd.env;
      credential = some (record {
        uid = s.ruid % 2 ^ 32;
        gid = s.rgid % 2 ^ 32;
        groups = supplementary_groups s.rgid s.user;
      });
    })

abbrev pub start_cmd : Bool → Option Cmd → Option Cmd
start_cmd starts none = none
start_cmd false (some cmd) = none
start_cmd true (some cmd) = some cmd

-- The command that runs; `starts` tells whether Start of the command succeeds.
unfoldable pub start_child : System → Bool → Option Cmd
unfolding child_env apply_privilege_drop
start_child s starts = start_cmd starts (apply_privilege_drop s (new_cmd s))

-- The user that the child runs as.
abbrev pub child_uid : System → Cmd → ℕ
child_uid s cmd = elim cmd.credential [ none ↦ s.euid | some c ↦ c.uid ]
