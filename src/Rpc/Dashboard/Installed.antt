-- ===== src/Rpc/Dashboard/Installed.antt =====
-- What an InstallDashboard leaves on the disk.
use nunya_core.Common.{ℕ, ◌<◌, ◌≡◌, true, Option, none, some, List, ◌==◌, length, if◌then◌else◌}
use nunya_core.Rpc.Dashboard.{
  Entry, Tree, Disk, Calls, Answer, installed, refused, failed, swap_failed,
  zip_is_in_single_directory,
}
use nunya_core.Rpc.Dashboard.Written.{written, last_write, all_below, AllInside}

-- Who owns the files.
abbrev pub owner_of : ℕ → ℕ → ℕ
owner_of euid ruid = if euid == 0 then ruid else euid

abbrev pub InstallPost : ℕ → ℕ → Option (List Entry) → Calls → Disk → Answer × Disk → Type 0
InstallPost euid ruid archive a d (refused, v) = v.target ≡ d.target
InstallPost euid ruid archive a d (failed, v) =
    (v.target ≡ d.target) × (v.temp ≡ (if a.clean_up then none else a.left_over))
InstallPost euid ruid archive a d (swap_failed, v) =
    (v.target ≡ (if a.remove_target then none else a.left_over))
    × (v.temp ≡ (if a.clean_up then none else a.left_over))
InstallPost euid ruid archive a d (installed, v) =
    (files : List Entry) × (t : Tree) × (archive ≡ some files)
    × (v.target ≡ some t)
    × (v.temp ≡ none)
    × ((p : List (List ℕ))
        → t.files p ≡ last_write p (written (zip_is_in_single_directory files) files))
    × (0 < length (written (zip_is_in_single_directory files) files))
    × AllInside (written (zip_is_in_single_directory files) files)
    × (all_below (zip_is_in_single_directory files) files ≡ true)
    × (t.owner ≡ owner_of euid ruid)

-- What was written to the temporary directory.
record Whole (files : List Entry) (owner : ℕ) (t : Tree) : Type 0 where
  holds :
      (p : List (List ℕ))
      → t.files p ≡ last_write p (written (zip_is_in_single_directory files) files)
  some_file : 0 < length (written (zip_is_in_single_directory files) files)
  below : all_below (zip_is_in_single_directory files) files ≡ true
  owned : t.owner ≡ owner

module _ (euid ruid : ℕ) (files : List Entry) (d : Disk) where
  abbrev Post : Calls → Answer × Disk → Type 0
  Post a r = InstallPost euid ruid (some files) a d r

  abbrev AdoptPost : Option Tree → Type 0
  AdoptPost none = Unit
  AdoptPost (some t) = Whole files (owner_of euid ruid) t

  owned : (t : Tree) → Whole files euid t → t.owner ≡ owner_of euid ruid → AdoptPost (some t)
  owned t w e = record { holds = w.holds; some_file = w.some_file; below = w.below; owned = e }
