-- ===== src/Entry/Tests.antt =====
-- main.go at concrete inputs.
use nunya_core.Common.{ℕ, ◌==◌, if◌then◌else◌, true, none, some, codes}
use nunya_core.Entry.Parent.{Paths}
use nunya_core.Entry.Core.{Dialed, refused, dialed, run_core}
use nunya_core.Entry.Core.Served.{CorePost, run_core-CorePost}

abbrev installed_paths : Paths
installed_paths = record {
  parent_exe = some (codes "/opt/nunya/Nunya (deleted)");
  executable = some (codes "/opt/nunya/NunyaCore");
  eval_symlinks = λ path. none;
}

-- The socket is there at the third attempt.
abbrev third_dial : ℕ → Dialed
third_dial i =
    if i == 2
    then dialed
        (record { conn = 7; is_unix = true; has_raw_conn = true; controls = true; pid = some 40 })
    else refused

run_core-CorePost_example :
    CorePost
      (codes "/run/nunya")
      installed_paths
      40
      third_dial
      (run_core (codes "/run/nunya") installed_paths 40 third_dial)
run_core-CorePost_example = run_core-CorePost (codes "/run/nunya") installed_paths 40 third_dial
