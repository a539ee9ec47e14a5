-- ===== src/Rpc/Dashboard/Exact.antt =====
-- When an InstallDashboard installs.
use nunya_core.Common.{
  ℕ, zero, suc, ◌+◌, ◌≡◌, ◌∙◌, refl, sym, ap, Bool, true, false, not, ◌&&◌, ◌||◌, Option, none,
  some, is_some, some_cancel, List, [], ◌∷◌, ◌==◌, length, if◌then◌else◌, Bool-cases, inl, inr,
  arith, ltb,
}
use nunya_core.Rpc.Dashboard.{
  Entry, Tree, Disk, Calls, save_at, elements_of, local_path, counted, extract_file, all_empty,
  add_file, extract_all, Answer, installed, swap, rename, adopt_extracted, adopted, extracted,
  no_files, make_temp, remove_temp, install_dashboard, zip_is_in_single_directory,
}
use nunya_core.Rpc.Dashboard.Written.{
  written, all_below, before_rest, length-before_rest, is_below, is_trimmed, none-extract,
  ExtractPost, extract_all-ExtractPost,
}

-- The calls for `k` files succeed, from the one with the number `n` on.
unfoldable pub all_saved : Calls → ℕ → ℕ → Bool
all_saved a n zero = true
all_saved a n (suc k) = a.make_parent n && a.extract n && all_saved a (n + 1) k

abbrev pub is_installed : Answer → Bool
is_installed installed = true
is_installed _ = false

-- Whether the files are given away, where that is called for.
abbrev pub adopts : Calls → ℕ → ℕ → Bool
adopts a euid ruid = not (euid == 0) || ruid == 0 || a.adopt

-- Each file has a path below the directory, there is one, and no call fails.
abbrev pub installs_files : Calls → ℕ → ℕ → Bool → List Entry → Bool
installs_files a euid ruid trim files =
    all_below trim files
    && ltb 0 (length (written trim files))
    && a.remove_temp
    && a.make_temp
    && all_saved a 0 (length (written trim files))
    && adopts a euid ruid
    && a.remove_target
    && a.rename

abbrev pub installs : Calls → ℕ → ℕ → Option (List Entry) → Bool
installs a euid ruid none = false
installs a euid ruid (some files) =
    installs_files a euid ruid (zip_is_in_single_directory files) files

-- One file, with the calls for those behind it.
saved_one :
    (a : Calls) (trim : Bool) (files : List Entry) (f : Entry) (path : Option (List (List ℕ)))
    (n : ℕ) (t : Tree) (below : Bool) (k : ℕ)
    → ((m : ℕ) (s : Tree)
        → is_some (extract_all a trim files (some (m, s))) ≡ (below && all_saved a m k))
    → is_some (extract_all a trim files (counted n (save_at a n path f.content t)))
      ≡ ((is_below path && below) && all_saved a n (length (before_rest path f.content []) + k))
unfolding all_saved
saved_one a trim files f none n t below k ih = ap is_some (none-extract a trim files)
saved_one a trim files f (some []) n t below k ih = ap is_some (none-extract a trim files)
saved_one a trim files f (some (name ∷ path)) n t below k ih =
    elim (Bool-cases (a.make_parent n && a.extract n)) [
      | inl e ↦
          rw (e, counted) (ih (n + 1) (add_file (name ∷ path) f.content t) ∙ ground (arith, e))
      | inr e ↦ rw (e, counted) (ap is_some (none-extract a trim files) ∙ ground (arith, e))
    ]

saved_entry :
    (a : Calls) (trim : Bool) (files : List Entry) (f : Entry) (elements : List (List ℕ)) (n : ℕ)
    (t : Tree) (below : Bool) (k : ℕ)
    → ((m : ℕ) (s : Tree)
        → is_some (extract_all a trim files (some (m, s))) ≡ (below && all_saved a m k))
    → is_some (extract_all a trim files (extract_file a f elements (n, t))) ≡ (
        (is_trimmed elements && below)
        && all_saved a n (length (before_rest (local_path elements) f.content []) + k))
unfolding local_path all_empty
saved_entry a trim files f [] n t below k ih =
    ih n t ∙ ap (λ (m : ℕ). below && all_saved a n m) (omega arith)
saved_entry a trim files f (e ∷ elements) n t below k ih =
    saved_one a trim files f (local_path (e ∷ elements)) n t below k ih

-- An entry, which is a directory if `b` is true.
step_iff :
    (a : Calls) (trim : Bool) (files : List Entry) (f : Entry) (elements : List (List ℕ)) (n : ℕ)
    (t : Tree) (b : Bool)
    → ((m : ℕ) (s : Tree)
        → is_some (extract_all a trim files (some (m, s)))
          ≡ (all_below trim files && all_saved a m (length (written trim files))))
    → is_some
        (extract_all a trim files (if b then some (n, t) else extract_file a f elements (n, t)))
      ≡ (((b || is_trimmed elements) && all_below trim files)
          && all_saved a n (
              length (
                if b
                then written trim files
                else before_rest (local_path elements) f.content (written trim files))))
step_iff a trim files f elements n t true ih = ih n t
step_iff a trim files f elements n t false ih =
    saved_entry a trim files f elements n t _ _ ih
    ∙ ap (λ (m : ℕ). (is_trimmed elements && all_below trim files) && all_saved a n m)
        (sym (length-before_rest (local_path elements) f.content (written trim files)))

extract_all_iff :
    (a : Calls) (trim : Bool) (files : List Entry) (n : ℕ) (t : Tree)
    → is_some (extract_all a trim files (some (n, t)))
      ≡ (all_below trim files && all_saved a n (length (written trim files)))
unfolding extract_all written all_below
extract_all_iff a trim [] n t = unfold all_saved in refl
extract_all_iff a trim (f ∷ files) n t =
    step_iff a trim files f (elements_of trim f) n t f.is_dir (extract_all_iff a trim files)

rename_iff :
    (a : Calls) (t : Tree) (renamed : Bool) (d : Disk)
    → is_installed (rename a t renamed d).0 ≡ renamed
rename_iff a t false d = refl
rename_iff a t true d = refl

swap_iff :
    (a : Calls) (t : Tree) (removed : Bool) (d : Disk)
    → is_installed (swap a t removed d).0 ≡ (removed && a.rename)
swap_iff a t false d = refl
swap_iff a t true d = rename_iff a t a.rename _

adopted_iff :
    (a : Calls) (o : Option Tree) (d : Disk)
    → is_installed (adopted a o d).0 ≡ (is_some o && a.remove_target && a.rename)
adopted_iff a none d = refl
adopted_iff a (some t) d = swap_iff a t a.remove_target _

adopt_iff :
    (euid ruid : ℕ) (succeeds : Bool) (t : Tree)
    → is_some (adopt_extracted euid ruid succeeds t) ≡ (not (euid == 0) || ruid == 0 || succeeds)
adopt_iff euid ruid succeeds t = ground arith

-- After the loop, which has counted the files.
extracted_iff :
    (a : Calls) (euid ruid k : ℕ) (saved : Bool) (r : Option (ℕ × Tree)) (d : Disk)
    → is_some r ≡ saved
    → ((n : ℕ) (t : Tree) → r ≡ some (n, t) → n ≡ k)
    → is_installed (extracted a euid ruid r d).0
      ≡ (saved && ltb 0 k && adopts a euid ruid && a.remove_target && a.rename)
extracted_iff a euid ruid k saved none d e q = ground (arith, e)
extracted_iff a euid ruid k saved (some (zero, t)) d e q = ground (arith, e, q zero t refl)
extracted_iff a euid ruid k saved (some (suc n, t)) d e q =
    adopted_iff a _ _ ∙ ground (arith, e, q (suc n) t refl, adopt_iff euid ruid a.adopt t)

counted_files :
    (trim : Bool) (files : List Entry) (euid : ℕ) (r : Option (ℕ × Tree))
    → ExtractPost trim files (0, no_files euid) r
    → (n : ℕ) (t : Tree) → r ≡ some (n, t)
    → n ≡ length (written trim files)
counted_files trim files euid none p n t e = cc
counted_files trim files euid (some (m, u)) p n t e =
    sym (ap (λ (x : ℕ × Tree). x.0) (some_cancel e)) ∙ omega (arith, p.1)

temp_iff :
    (a : Calls) (euid ruid : ℕ) (files : List Entry) (made : Bool) (d : Disk)
    → is_installed (make_temp a euid ruid files made d).0 ≡ (
        made
        && (all_below (zip_is_in_single_directory files) files
            && all_saved a 0 (length (written (zip_is_in_single_directory files) files)))
        && ltb 0 (length (written (zip_is_in_single_directory files) files))
        && adopts a euid ruid
        && a.remove_target
        && a.rename)
temp_iff a euid ruid files false d = refl
temp_iff a euid ruid files true d =
    let trim = zip_is_in_single_directory files in
    extracted_iff a euid ruid (length (written trim files)) _ _ d
      (extract_all_iff a trim files 0 (no_files euid))
      (counted_files trim files euid _ (extract_all-ExtractPost a trim files (0, no_files euid)))

removed_iff :
    (a : Calls) (euid ruid : ℕ) (files : List Entry) (removed : Bool) (d : Disk)
    → is_installed (remove_temp a euid ruid files removed d).0 ≡ (
        removed
        && is_installed (make_temp a euid ruid files a.make_temp (record d { temp = none })).0)
removed_iff a euid ruid files false d = refl
removed_iff a euid ruid files true d = refl

pub install_dashboard_iff :
    (a : Calls) (euid ruid : ℕ) (given : Bool) (archive : Option (List Entry)) (d : Disk)
    → is_installed (install_dashboard a euid ruid given archive d).0
      ≡ (given && installs a euid ruid archive)
unfolding install_dashboard
install_dashboard_iff a euid ruid false archive d = refl
install_dashboard_iff a euid ruid true none d = refl
install_dashboard_iff a euid ruid true (some files) d =
    removed_iff a euid ruid files a.remove_temp d
    ∙ ground (arith, temp_iff a euid ruid files a.make_temp (record d { temp = none }))
