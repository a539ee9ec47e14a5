-- ===== src/Entry/Parent.antt =====
-- internal/parentcheck: CheckParentProcess of parentcheck.go, with getParentExePath and resolveFinalPath
-- of parentcheck_linux.go. A path is a text.
use nunya_core.Common.{
  ℕ, Bool, false, ◌&&◌, ◌||◌, Option, none, some, List, [], ◌∷◌, ◌==◌, if◌then◌else◌, codes,
  eq_text,
}

-- What the system says: the link /proc/PID/exe, the own executable, and what EvalSymlinks yields.
pub record Paths : Type 0 where
  pub parent_exe : Option (List ℕ)
  pub executable : Option (List ℕ)
  pub eval_symlinks : List ℕ → Option (List ℕ)

-- strings.TrimSuffix.
unfoldable pub trim_suffix : List ℕ → List ℕ → List ℕ
unfolding eq_text
trim_suffix suffix [] = []
trim_suffix suffix (c ∷ text) =
    let rest = trim_suffix suffix text in if eq_text (c ∷ text) suffix then [] else c ∷ rest

abbrev pub or_same : List ℕ → Option (List ℕ) → List ℕ
or_same path none = path
or_same path (some resolved) = resolved

abbrev pub resolve_final_path : Paths → List ℕ → List ℕ
resolve_final_path p path = or_same path (p.eval_symlinks path)

unfoldable pub has_slash : List ℕ → Bool
has_slash [] = false
has_slash (c ∷ path) = c == 47 || has_slash path

-- What stands behind the last "/", 47, and before it.
unfoldable pub base : List ℕ → List ℕ
unfolding has_slash
base [] = []
base (c ∷ path) =
    let rest = base path in if has_slash path then rest else if c == 47 then path else c ∷ path

unfoldable pub before_base : List ℕ → List ℕ
unfolding has_slash
before_base [] = []
before_base (c ∷ path) = let rest = before_base path in if has_slash path then c ∷ rest else []

abbrev pub or_root : List ℕ → List ℕ
or_root [] = codes "/"
or_root (c ∷ path) = c ∷ path

-- filepath.Dir of a clean path.
abbrev pub dir : List ℕ → List ℕ
dir path = if has_slash path then or_root (before_base path) else codes "."

abbrev pub is_expected : List ℕ → List ℕ → Bool
is_expected parent self = eq_text (dir parent) (dir self) && eq_text (base parent) (codes "Nunya")

abbrev pub check_self : Paths → List ℕ → Option (List ℕ) → Bool
check_self p parent none = false
check_self p parent (some self) =
    is_expected (resolve_final_path p parent) (resolve_final_path p self)

abbrev pub check_parent : Paths → Option (List ℕ) → Bool
check_parent p none = false
check_parent p (some link) = check_self p (trim_suffix (codes " (deleted)") link) p.executable

-- Whether the process goes on.
unfoldable pub check_parent_process : Paths → Bool
unfolding trim_suffix base before_base eq_text
check_parent_process p = check_parent p p.parent_exe
