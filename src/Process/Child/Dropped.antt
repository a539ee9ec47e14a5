-- ===== src/Process/Child/Dropped.antt =====
-- Who the child runs as, and what its environment is.
use nunya_core.Common.{
  ◌≡◌, ◌≢◌, ◌<◌, ◌^◌, refl, ap, Bool, true, false, ◌&&◌, Option, none, some, List, ◌==◌,
  if◌then◌else◌, arith, inl, inr, Bool-cases, count_text, eq_text, eq_text→eq, is_prefix, codes, ℕ,
  subst, ◌%◌, sym, has_text, contains, map,
}
use nunya_core.Process.Child.{
  user_names, supplementary_groups, upper, User, System, has_secret_name, child_env, user_env, Cmd,
  new_cmd, apply_privilege_drop, start_cmd, start_child, child_uid,
}
use nunya_core.Process.Child.Kept.{
  variable, IsSecret, is_secret, not_secret, count_child_env, cut_name_lem, own_count,
  user_env_count,
}

-- The variable is one of the three that depend on the user, and the user is changed to one in the
-- user database.
abbrev pub replaced : System → List ℕ → Option User → Bool
replaced s name none = false
replaced s name (some u) = s.euid == 0 && has_text user_names name

-- The child of a start, if there is one.
abbrev pub ChildPost : System → Bool → (name value : List ℕ) → Option Cmd → Type 0
ChildPost s starts name value none = starts ≡ true → (s.euid ≡ 0) × (s.ruid ≡ 0)
ChildPost s starts name value (some cmd) =
    (child_uid s cmd ≢ 0)
    × (child_uid s cmd ≡ (if s.euid == 0 then s.ruid else s.euid))
    × (IsSecret name → count_text (variable name value) cmd.env ≡ 0)
    × (¬ IsSecret name
        → count_text (variable name value) cmd.env ≡ (
            if replaced s name s.user
            then own_count (variable name value) s.user
            else count_text (variable name value) s.environ))

abbrev dropped_cmd : System → Cmd
dropped_cmd s = record {
  env = user_env s.user (child_env s.environ);
  credential = some (record {
    uid = s.ruid % 2 ^ 32;
    gid = s.rgid % 2 ^ 32;
    groups = supplementary_groups s.rgid s.user;
  });
}

module _ (s : System) (name value : List ℕ) (h : contains name 61 ≡ false) where
  -- What childEnv leaves of the variable.
  secret_gone : IsSecret name → count_text (variable name value) (child_env s.environ) ≡ 0
  secret_gone k = ground (
    arith,
    count_child_env (variable name value) s.environ,
    ap has_secret_name (cut_name_lem name value h),
    is_secret name k,
  )

  other_kept :
      ¬ IsSecret name
      → count_text (variable name value) (child_env s.environ)
        ≡ count_text (variable name value) s.environ
  other_kept k = ground (
    arith,
    count_child_env (variable name value) s.environ,
    ap has_secret_name (cut_name_lem name value h),
    not_secret name k,
  )

  -- A secret name is none of the user's.
  secret_eq :
      (k : List ℕ)
      → is_prefix (codes "NUNYA") (map upper k) ≡ false
      → IsSecret name
      → eq_text k name ≡ false
  secret_eq k p i = elim (Bool-cases (eq_text k name)) [
    | inl e ↦
        let same : is_prefix (codes "NUNYA") (map upper k) ≡ true =
          rw (eq_text→eq k name e) (is_secret name i) in
        cc
    | inr e ↦ e
  ]

  secret_other : IsSecret name → has_text user_names name ≡ false
  unfolding has_text is_prefix
  secret_other i = ground (
    arith,
    secret_eq (codes "HOME") refl i,
    secret_eq (codes "USER") refl i,
    secret_eq (codes "LOGNAME") refl i,
  )

  -- The child of a process that is not root, and of one that changes the user.
  same_user :
      (starts : Bool)
      → (s.euid == 0) ≡ false
      → ChildPost s starts name value (start_cmd starts (some (new_cmd s)))
  same_user false e = λ k. cc
  same_user true e =
      (ground arith, ground arith, secret_gone, λ k. replaced_not s.user e (other_kept k))
    where
      replaced_not :
          (u : Option User)
          → (s.euid == 0) ≡ false
          → count_text (variable name value) (child_env s.environ)
            ≡ count_text (variable name value) s.environ
          → count_text (variable name value) (child_env s.environ) ≡ (
              if replaced s name u
              then own_count (variable name value) u
              else count_text (variable name value) s.environ)
      replaced_not none e k = k
      replaced_not (some u) e k = rw e k

  secret_env :
      (u : Option User)
      → IsSecret name
      → count_text (variable name value) (user_env u (child_env s.environ)) ≡ 0
  secret_env none i = secret_gone i
  secret_env (some u) i = ground (
    arith,
    user_env_count name value (some u) (child_env s.environ) h,
    secret_other i,
    secret_gone i,
  )

  other_env :
      (u : Option User)
      → (s.euid == 0) ≡ true
      → ¬ IsSecret name
      → count_text (variable name value) (user_env u (child_env s.environ)) ≡ (
          if replaced s name u
          then own_count (variable name value) u
          else count_text (variable name value) s.environ)
  other_env none e i = other_kept i
  other_env (some u) e i =
      ground (arith, user_env_count name value (some u) (child_env s.environ) h, other_kept i)

  changed_user :
      (starts : Bool)
      → (s.euid == 0) ≡ true
      → (s.ruid == 0) ≡ false
      → s.ruid < 2 ^ 32
      → ChildPost s starts name value (start_cmd starts (some (dropped_cmd s)))
  changed_user false e z r = λ k. cc
  changed_user true e z r = (ground arith, ground arith, secret_env s.user, other_env s.user e)

-- For every environment, set of ids and user database, with a real user id that fits 32 bits: a child
-- that can be started is refused only where the process is root itself and was started by root; one
-- that starts does not run as root, but as the user who launched the process if that has root's
-- rights, and as the process's own user otherwise. In its environment no name starts with NUNYA, in
-- capitals or small letters; HOME, USER and LOGNAME are those of the user that it was changed to, if
-- that is in the database; and each other variable is there as often as in the process's own.
pub start_child-ChildPost :
    (s : System) (starts : Bool) (name value : List ℕ)
    → s.ruid < 2 ^ 32
    → contains name 61 ≡ false
    → ChildPost s starts name value (start_child s starts)
unfolding start_child apply_privilege_drop
start_child-ChildPost s starts name value r h = elim (Bool-cases (s.euid == 0)) [
  | inl e ↦ elim (Bool-cases (s.ruid == 0)) [
    | inl z ↦ rw (e, z) (λ k. ground arith)
    | inr z ↦
        let drops : start_child s starts ≡ start_cmd starts (some (dropped_cmd s)) =
          rw (e, z) refl in
        subst (ChildPost s starts name value) (sym drops) (changed_user s name value h starts e z r)
  ]
  | inr e ↦
      let keeps : start_child s starts ≡ start_cmd starts (some (new_cmd s)) = rw e refl in
      subst (ChildPost s starts name value) (sym keeps) (same_user s name value h starts e)
]
