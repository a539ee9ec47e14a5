-- ===== src/Process/Config.antt =====
-- internal/process: CreateExtraConfig of process.go with createSecureConfigFile and makeConfigReadable
-- of process_unix.go. A path is a number; a file system says which paths exist, the directory that a
-- new one was made in, and its owner, mode and content.
pub mod Readable
use nunya_core.Common.{
  ℕ, ◌+◌, Bool, true, false, not, ◌&&◌, ◌||◌, Option, none, some, List, [], ◌==◌, if◌then◌else◌,
  is_handle,
}
use nunya_core.Process.Child.{System}

pub record Files : Type 0 where
  pub exists_ : ℕ → Bool
  pub parent : ℕ → Option ℕ
  pub owner : ℕ → ℕ
  pub mode : ℕ → ℕ
  pub content : ℕ → List ℕ
  pub next : ℕ  -- the next path

-- Which of the calls succeed, and which paths a RemoveAll leaves, whose error is ignored: none where
-- it succeeds.
pub record Calls : Type 0 where
  pub create_temp : Bool
  pub mkdir_temp : Bool
  pub dir_chmod : Bool
  pub write : Bool
  pub chown : Bool
  pub chmod : Bool
  pub close : Bool
  pub leaves : ℕ → Bool

abbrev pub create : Option ℕ → ℕ → ℕ → Files → Files
create dir owner mode fs = record {
  exists_ = λ n. if n == fs.next then true else fs.exists_ n;
  parent = λ n. if n == fs.next then dir else fs.parent n;
  owner = λ n. if n == fs.next then owner else fs.owner n;
  mode = λ n. if n == fs.next then mode else fs.mode n;
  content = λ n. if n == fs.next then [] else fs.content n;
  next = fs.next + 1;
}

-- os.RemoveAll: the path and what was made in it, but for those that it leaves.
abbrev pub remove_all : (ℕ → Bool) → ℕ → Files → Files
remove_all leaves p fs = record fs {
  exists_ =
      λ n. if (n == p || is_handle p (fs.parent n)) && not (leaves n) then false else fs.exists_ n;
}

abbrev pub set_owner : ℕ → ℕ → Files → Files
set_owner p u fs = record fs { owner = λ n. if n == p then u else fs.owner n }

-- Chmod, if it succeeds.
abbrev pub set_mode : Bool → ℕ → ℕ → Files → Files
set_mode succeeds p m fs = record fs { mode = λ n. if succeeds && n == p then m else fs.mode n }

abbrev pub write_string : ℕ → List ℕ → Files → Files
write_string p text fs = record fs { content = λ n. if n == p then text else fs.content n }

-- The file and the path to clean up, or an error. 0600 is 384, 0700 is 448, 0711 is 457.
abbrev pub own_file : System → Files → Bool → Option (ℕ × ℕ) × Files
own_file s fs false = (none, fs)
own_file s fs true = (some (fs.next, fs.next), create none s.euid 384 fs)

abbrev pub elevated_file : System → (ℕ → Bool) → ℕ → Files → Bool → Option (ℕ × ℕ) × Files
elevated_file s leaves dir fs false = (none, remove_all leaves dir fs)
elevated_file s leaves dir fs true = (some (fs.next, dir), create (some dir) s.euid 384 fs)

abbrev pub elevated_dir : System → Calls → Files → Bool → Option (ℕ × ℕ) × Files
elevated_dir s a fs false = (none, fs)
elevated_dir s a fs true =
    elevated_file s a.leaves fs.next (set_mode a.dir_chmod fs.next 457 (create none s.euid 448 fs))
      a.create_temp

abbrev pub create_secure_config_file : System → Calls → Files → Option (ℕ × ℕ) × Files
create_secure_config_file s a fs =
    if not (s.euid == 0) then own_file s fs a.create_temp else elevated_dir s a fs a.mkdir_temp

abbrev pub give_away : System → Calls → ℕ → Files → Bool → Bool × Files
give_away s a f fs false = (false, fs)
give_away s a f fs true = (a.chmod, set_mode a.chmod f 384 (set_owner f s.ruid fs))

abbrev pub make_config_readable : System → Calls → ℕ → Files → Bool × Files
make_config_readable s a f fs =
    if not (s.euid == 0)
    then (a.chmod, set_mode a.chmod f 384 fs)
    else if s.ruid == 0
    then (true, fs)
    else give_away s a f fs a.chown

-- The last steps, with what makeConfigReadable did and whether Close succeeds.
abbrev pub finish_config : (ℕ → Bool) → Bool → ℕ → ℕ → Bool × Files → Option (ℕ × ℕ) × Files
finish_config leaves close f cleanup (false, fs) = (none, remove_all leaves cleanup fs)
finish_config leaves false f cleanup (true, fs) = (none, remove_all leaves cleanup fs)
finish_config leaves true f cleanup (true, fs) = (some (f, cleanup), fs)

abbrev pub write_config : System → Calls → List ℕ → ℕ → ℕ → Files → Bool → Option (ℕ × ℕ) × Files
write_config s a content f cleanup fs false = (none, remove_all a.leaves cleanup fs)
write_config s a content f cleanup fs true =
    finish_config a.leaves a.close f cleanup
      (make_config_readable s a f (write_string f content fs))

abbrev pub fill_config : System → Calls → List ℕ → Option (ℕ × ℕ) × Files → Option (ℕ × ℕ) × Files
fill_config s a content (none, fs) = (none, fs)
fill_config s a content (some (f, cleanup), fs) = write_config s a content f cleanup fs a.write

-- The path of the config and the path to clean up, or an error.
unfoldable pub create_extra_config : System → Calls → List ℕ → Files → Option (ℕ × ℕ) × Files
create_extra_config s a content fs = fill_config s a content (create_secure_config_file s a fs)
