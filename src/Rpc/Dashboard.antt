-- ===== src/Rpc/Dashboard.antt =====
-- internal/rpc/dashboard.go, with adoptExtracted of dashboard_unix.go: InstallDashboard, on Unix. A
-- directory has the content of the file at each path of names, if there is one.
pub mod Inside
pub mod Written
pub mod Exact
pub mod Installed
use nunya_core.Common.{
  ℕ, zero, suc, ◌+◌, Bool, true, false, not, ◌&&◌, ◌||◌, Option, none, some, List, [], ◌∷◌, ◌++◌,
  ◌==◌, if◌then◌else◌, codes, eq_text, drop,
}
use mathlib.Core.List.{reverse}

pub record Entry : Type 0 where
  pub name : List ℕ
  pub is_dir : Bool
  pub content : List ℕ

pub record Tree : Type 0 where
  pub files : List (List ℕ) → Option (List ℕ)
  pub owner : ℕ

pub record Disk : Type 0 where
  pub target : Option Tree
  pub temp : Option Tree

-- Which calls succeed, by the number of files before for those of a file; `left_over` is what a
-- RemoveAll that fails leaves.
pub record Calls : Type 0 where
  pub remove_temp : Bool
  pub make_temp : Bool
  pub make_parent : ℕ → Bool
  pub extract : ℕ → Bool
  pub adopt : Bool
  pub remove_target : Bool
  pub rename : Bool
  pub clean_up : Bool
  pub left_over : Option Tree

-- strings.Split at "/", 47.
abbrev pub onto_first : ℕ → List (List ℕ) → List (List ℕ)
onto_first c [] = (c ∷ []) ∷ []
onto_first c (part ∷ parts) = (c ∷ part) ∷ parts

unfoldable pub split : List ℕ → List (List ℕ)
split [] = [] ∷ []
split (c ∷ text) = let parts = split text in if c == 47 then [] ∷ parts else onto_first c parts

-- zipIsInSingleDirectory, from the first entry that is left, with the variable dirName.
abbrev pub single_step : List ℕ → List (List ℕ) → Option (List ℕ)
single_step dir_name [] = none
single_step dir_name (a ∷ []) = none
single_step [] (a ∷ b ∷ parts) = some a
single_step (c ∷ dir_name) (a ∷ b ∷ parts) =
    if eq_text (c ∷ dir_name) a then some (c ∷ dir_name) else none

abbrev pub is_filled : List ℕ → Bool
is_filled [] = false
is_filled (c ∷ cs) = true

unfoldable pub single_from : Option (List ℕ) → List Entry → Bool
unfolding split eq_text
single_from none files = false
single_from (some dir_name) [] = is_filled dir_name
single_from (some dir_name) (f ∷ files) =
    single_from (if f.is_dir then some dir_name else single_step dir_name (split f.name)) files

abbrev pub zip_is_in_single_directory : List Entry → Bool
zip_is_in_single_directory files = single_from (some []) files

pub data Kind : Type 0 where
  up : Kind
  stay : Kind
  plain : Kind

abbrev pub kind_of : List ℕ → Kind
kind_of e =
    if eq_text e (codes "..")
    then up
    else if eq_text e [] || eq_text e (codes ".")
    then stay
    else plain

-- filepath.Clean of a relative path: how often it goes up, and the names below, the last one first.
abbrev pub clean_step : List ℕ → Kind → ℕ × List (List ℕ) → ℕ × List (List ℕ)
clean_step e stay (ups, names) = (ups, names)
clean_step e plain (ups, names) = (ups, e ∷ names)
clean_step e up (ups, []) = (ups + 1, [])
clean_step e up (ups, name ∷ names) = (ups, names)

unfoldable pub clean : ℕ × List (List ℕ) → List (List ℕ) → ℕ × List (List ℕ)
unfolding eq_text
clean r [] = r
clean r (e ∷ elements) = clean (clean_step e (kind_of e) r) elements

unfoldable pub all_empty : List (List ℕ) → Bool
all_empty [] = true
all_empty ([] ∷ elements) = all_empty elements
all_empty ((c ∷ e) ∷ elements) = false

abbrev pub if_local : ℕ × List (List ℕ) → Option (List (List ℕ))
if_local (zero, names) = some (reverse names)
if_local (suc ups, names) = none

-- filepath.Join and IsLocal: the names of a path that is local.
unfoldable pub local_path : List (List ℕ) → Option (List (List ℕ))
unfolding clean all_empty
local_path elements = if all_empty elements then none else if_local (clean (0, []) elements)

unfoldable pub eq_path : List (List ℕ) → List (List ℕ) → Bool
unfolding eq_text
eq_path [] [] = true
eq_path [] (b ∷ bs) = false
eq_path (a ∷ as_) [] = false
eq_path (a ∷ as_) (b ∷ bs) = eq_text a b && eq_path as_ bs

-- A file that is there already is truncated.
abbrev pub add_file : List (List ℕ) → List ℕ → Tree → Tree
add_file path content t = record t {
  files = λ p. if eq_path path p then some content else t.files p;
}

-- os.Create of the directory itself, the path without names, fails.
abbrev pub save : Calls → ℕ → List (List ℕ) → List ℕ → Tree → Option Tree
save a n [] content t = none
save a n (name ∷ path) content t =
    if a.make_parent n && a.extract n then some (add_file (name ∷ path) content t) else none

abbrev pub save_at : Calls → ℕ → Option (List (List ℕ)) → List ℕ → Tree → Option Tree
save_at a n none content t = none
save_at a n (some path) content t = save a n path content t

abbrev pub elements_of : Bool → Entry → List (List ℕ)
elements_of trim f = if trim then drop 1 (split f.name) else split f.name

-- One file: the number that were extracted with what was written, or a failure.
abbrev pub counted : ℕ → Option Tree → Option (ℕ × Tree)
counted n none = none
counted n (some t) = some (n + 1, t)

abbrev pub extract_file : Calls → Entry → List (List ℕ) → ℕ × Tree → Option (ℕ × Tree)
extract_file a f [] (n, t) = some (n, t)
extract_file a f (e ∷ elements) (n, t) =
    counted n (save_at a n (local_path (e ∷ elements)) f.content t)

abbrev pub extract_entry : Calls → Bool → Entry → ℕ × Tree → Option (ℕ × Tree)
extract_entry a trim f r = if f.is_dir then some r else extract_file a f (elements_of trim f) r

-- The loop over the files.
unfoldable pub extract_all : Calls → Bool → List Entry → Option (ℕ × Tree) → Option (ℕ × Tree)
unfolding split local_path
extract_all a trim files none = none
extract_all a trim [] (some r) = some r
extract_all a trim (f ∷ files) (some r) = extract_all a trim files (extract_entry a trim f r)

pub data Answer : Type 0 where
  installed : Answer
  refused : Answer  -- before the temporary directory was made
  failed : Answer  -- after that
  swap_failed : Answer  -- in the removal of the target directory or the renaming

abbrev pub clean_temp : Calls → Disk → Disk
clean_temp a d = record d { temp = if a.clean_up then none else a.left_over }

abbrev pub rename : Calls → Tree → Bool → Disk → Answer × Disk
rename a t false d = (swap_failed, clean_temp a d)
rename a t true d = (installed, record d { target = some t; temp = none })

abbrev pub swap : Calls → Tree → Bool → Disk → Answer × Disk
swap a t false d = (swap_failed, clean_temp a (record d { target = a.left_over }))
swap a t true d = rename a t a.rename (record d { target = none })

-- adoptExtracted: the owner that it gives the files, if any.
abbrev pub adopt_extracted : ℕ → ℕ → Bool → Tree → Option Tree
adopt_extracted euid ruid succeeds t =
    if not (euid == 0)
    then some t
    else if ruid == 0
    then some t
    else if succeeds
    then some (record t { owner = ruid })
    else none

abbrev pub adopted : Calls → Option Tree → Disk → Answer × Disk
adopted a none d = (failed, clean_temp a d)
adopted a (some t) d = swap a t a.remove_target (record d { temp = some t })

abbrev pub extracted : Calls → ℕ → ℕ → Option (ℕ × Tree) → Disk → Answer × Disk
extracted a euid ruid none d = (failed, clean_temp a d)
extracted a euid ruid (some (zero, t)) d = (failed, clean_temp a d)
extracted a euid ruid (some (suc n, t)) d =
    adopted a (adopt_extracted euid ruid a.adopt t) (record d { temp = some t })

abbrev pub no_files : ℕ → Tree
no_files owner = record { files = λ p. none; owner = owner }

abbrev pub make_temp : Calls → ℕ → ℕ → List Entry → Bool → Disk → Answer × Disk
make_temp a euid ruid files false d = (refused, d)
make_temp a euid ruid files true d =
    extracted a euid ruid
      (extract_all a (zip_is_in_single_directory files) files (some (0, no_files euid))) d

abbrev pub remove_temp : Calls → ℕ → ℕ → List Entry → Bool → Disk → Answer × Disk
remove_temp a euid ruid files false d = (refused, record d { temp = a.left_over })
remove_temp a euid ruid files true d =
    make_temp a euid ruid files a.make_temp (record d { temp = none })

abbrev pub open_archive : Calls → ℕ → ℕ → Option (List Entry) → Disk → Answer × Disk
open_archive a euid ruid none d = (refused, d)
open_archive a euid ruid (some files) d = remove_temp a euid ruid files a.remove_temp d

-- With whether both paths are given, and what zip.OpenReader yields.
unfoldable pub install_dashboard : Calls → ℕ → ℕ → Bool → Option (List Entry) → Disk → Answer × Disk
unfolding single_from extract_all
install_dashboard a euid ruid false archive d = (refused, d)
install_dashboard a euid ruid true archive d = open_archive a euid ruid archive d
