-- ===== src/Process/Windows/Tests.antt =====
-- internal/process on Windows at concrete inputs.
use nunya_core.Common.{
  ℕ, ◌≡◌, ◌==◌, refl, Bool, true, false, not, ◌&&◌, ◌||◌, none, some, [], ◌∷◌, codes,
}
use nunya_core.Process.Windows.Handles.{Api, World, Call, wts_query_user_token, get_linked_token}
use nunya_core.Process.Windows.Runner.{
  Runner, waiting, returned, started, enter, Reach, here, next, waits, out_pumped, ends,
}
use nunya_core.Process.Windows.Runner.Closed.{is_returned, runner-Reach}
use nunya_core.Process.Windows.Start.{start_child}
use nunya_core.Process.Windows.Start.Dropped.{RunPost, start_child-RunPost}
use nunya_core.Process.Windows.Start.EnvBlock.{make_env_block, BlockPost, make_env_block-BlockPost}

-- The linked token and the sessions' are refused, so that a shell's is taken.
abbrev refuses : Call → ℕ → Bool
refuses get_linked_token c = false
refuses wts_query_user_token c = false
refuses _ c = true

abbrev admin : Api
admin = record {
  succeeds = refuses;
  restricts = λ lua groups c. true;
  elevated = λ c. c == 0;
  copy_elevated = λ e c. e;
  groups = [];
  own_session = some 1;
  console_session = 1;
  sessions = none;
  session_of = λ pid. some 1;
  processes = (40, codes "Explorer.EXE") ∷ [];
}

abbrev no_handles : World
no_handles = record { clock = 0; next = 4; handles = 3 ∷ []; elevated = λ h. false; faults = 0 }

start_child-RunPost_example :
    RunPost no_handles (start_child admin (codes "PATH=x" ∷ []) no_handles)
start_child-RunPost_example =
    start_child-RunPost admin (record { copies = λ e c. refl; answers = λ c. refl })
      (codes "PATH=x" ∷ []) no_handles

make_env_block-BlockPost_example :
    BlockPost
      (codes "A=1" ∷ [] ∷ (120 ∷ 61 ∷ 128512 ∷ []) ∷ [])
      (make_env_block (codes "A=1" ∷ [] ∷ (120 ∷ 61 ∷ 128512 ∷ []) ∷ []))
make_env_block-BlockPost_example =
    make_env_block-BlockPost (codes "A=1" ∷ [] ∷ (120 ∷ 61 ∷ 128512 ∷ []) ∷ [])

-- The output ends, the child ends, and Wait has started.
abbrev pumped : Runner
pumped = record {
  set = true;
  process = true;
  out_read = false;
  err_read = true;
  done = 1;
  ended = true;
  waiter = waiting;
  faults = 0;
}

runner-Reach_example :
    (pumped.faults ≡ 0)
    × (pumped.process ≡ not (is_returned pumped.waiter))
    × (pumped.process ≡ pumped.set)
    × ((is_returned pumped.waiter && (pumped.out_read || pumped.err_read)) ≡ false)
    × ((t : Runner) × Reach pumped t × (t.waiter ≡ returned))
unfolding enter
runner-Reach_example =
    runner-Reach (next (next (next here (waits started refl)) (out_pumped _ refl)) (ends _))
