-- ===== src/Process/Tests.antt =====
-- internal/process at concrete inputs.
use nunya_core.Common.{◌≡◌, refl, true, false, none, some, [], ◌∷◌, codes, contains, arith}
use nunya_core.Process.Child.{System, Cmd, start_child, child_uid}
use nunya_core.Process.Child.Dropped.{ChildPost, start_child-ChildPost}
use nunya_core.Process.Config.{Files, Calls, create_extra_config}
use nunya_core.Process.Config.Readable.{ConfigPost, reader, create_extra_config-ConfigPost}

abbrev setuid_root : System
setuid_root = record {
  euid = 0;
  ruid = 1000;
  rgid = 100;
  environ = codes "HOME=/root" ∷ codes "nunya_KEY=1" ∷ codes "LANG=C" ∷ [];
  user = some (record {
    home_dir = codes "/home/a";
    username = codes "a";
    groups = some (some 100 ∷ none ∷ some 27 ∷ []);
  });
}

start_child-ChildPost_example :
    ChildPost setuid_root true (codes "nunya_KEY") (codes "1") (start_child setuid_root true)
unfolding contains
start_child-ChildPost_example =
    start_child-ChildPost setuid_root true (codes "nunya_KEY") (codes "1") (omega arith) refl

abbrev no_files : Files
no_files = record {
  exists_ = λ n. false;
  parent = λ n. none;
  owner = λ n. 0;
  mode = λ n. 0;
  content = λ n. [];
  next = 3;
}

abbrev all_succeed : Calls
all_succeed = record {
  create_temp = true;
  mkdir_temp = true;
  dir_chmod = true;
  write = true;
  chown = true;
  chmod = true;
  close = true;
  leaves = λ n. false;
}

create_extra_config-ConfigPost_example :
    ConfigPost 3 setuid_root all_succeed.leaves
      (codes "x")
      no_files
      (create_extra_config setuid_root all_succeed (codes "x") no_files)
    × ((cmd : Cmd)
        → start_child setuid_root true ≡ some cmd
        → child_uid setuid_root cmd ≡ reader setuid_root)
create_extra_config-ConfigPost_example =
    create_extra_config-ConfigPost 3 setuid_root all_succeed (codes "x") no_files true
      (record { below = λ e. cc; outside = λ e. cc }) (omega arith)
