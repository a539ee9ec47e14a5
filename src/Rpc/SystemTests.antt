-- ===== src/Rpc/SystemTests.antt =====
-- The dashboard at a concrete archive.
use nunya_core.Common.{true, false, none, List, [], ◌∷◌, codes}
use nunya_core.Rpc.Dashboard.{Entry, Calls, Disk}

abbrev dashboard : List Entry
dashboard =
    record { name = codes "ui-main/"; is_dir = true; content = [] }
    ∷ record { name = codes "ui-main/index.html"; is_dir = false; content = codes "<html>" }
    ∷ record { name = codes "ui-main/js/./a/../app.js"; is_dir = false; content = codes "1" }
    ∷ []

abbrev all_done : Calls
all_done = record {
  remove_temp = true;
  make_temp = true;
  make_parent = λ n. true;
  extract = λ n. true;
  adopt = true;
  remove_target = true;
  rename = true;
  clean_up = true;
  left_over = none;
}

abbrev no_dirs : Disk
no_dirs = record { target = none; temp = none }
