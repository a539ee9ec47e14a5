-- ===== src/Process/Windows/Start.antt =====
-- internal/process/process_windows.go: startChild, startWithToken, startWithTokenW and makeEnvBlock.
pub mod EnvBlock
pub mod Opened
pub mod Dropped
use nunya_core.Common.{
  ℕ, ◌+◌, Bool, true, false, ◌&&◌, ◌≡◌, Option, none, some, List, [], ◌∷◌, is_some, if◌then◌else◌,
}
use nunya_core.Process.Child.{child_env}
use nunya_core.Process.Windows.Handles.{
  Api, World, Call, open_process_token, look_path, create_pipe, open_nul, set_inherit, encode_text,
  create_process_with_token, start_cmd, tick, with_handle, close, closing, new_handle, obtain,
  is_elevated,
}
use nunya_core.Process.Windows.Tokens.{token_of, unprivileged_token}
use nunya_core.Process.Windows.Start.EnvBlock.{make_env_block}

-- A child that runs: whether it is elevated, and the handles that its runner keeps.
pub record Running : Type 0 where
  pub elevated : Bool
  pub handles : List ℕ

unfoldable pub close_all : List ℕ → World → World
close_all [] w = w
close_all (h ∷ hs) w = close_all hs (close h w)

-- os.Pipe: the ends to read and to write.
abbrev pub new_pipe : World → World
new_pipe w = record (new_handle false (new_handle false w)) { clock = w.clock + 1 }

-- The first handle is outR, and outW, errR, errW and nul follow.
abbrev pub all_files : ℕ → List ℕ
all_files n = n ∷ (n + 1) ∷ (n + 2) ∷ (n + 3) ∷ (n + 4) ∷ []

-- pi.Process and pi.Thread are new; the thread is closed at the end.
abbrev pub with_child : ℕ → ℕ → Bool → World → Option Running × World
with_child n tok false w =
    (none, close_all (n ∷ (n + 2) ∷ []) (close_all ((n + 1) ∷ (n + 3) ∷ (n + 4) ∷ []) (tick w)))
with_child n tok true w = (
  some (record { elevated = w.elevated tok; handles = (n + 5) ∷ (n + 2) ∷ n ∷ [] }),
  close (n + 6)
      (close_all ((n + 1) ∷ (n + 3) ∷ (n + 4) ∷ []) (new_handle false (new_handle false w))),
)

-- The texts are encoded, in `encoded`, or all files are closed.
abbrev pub with_texts : Api → ℕ → ℕ → Bool → World → Option Running × World
with_texts api n tok false w = (none, close_all (all_files n) w)
with_texts api n tok true w =
    with_child n tok (api.succeeds create_process_with_token w.clock) (with_handle tok w)

abbrev pub encoded : Api → List (List ℕ) → World → Bool
encoded api environ w =
    api.succeeds encode_text w.clock
    && api.succeeds encode_text (w.clock + 1)
    && is_some (make_env_block (child_env environ))

-- makeInheritable of outW, errW and nul, up to the first that fails.
unfoldable pub inherited : Api → List ℕ → World → Bool × World
inherited api [] w = (true, w)
inherited api (f ∷ fs) w =
    let rest = inherited api fs (tick (with_handle f w)) in
    if api.succeeds set_inherit w.clock then rest else (false, tick (with_handle f w))

abbrev pub with_inherited : Api → List (List ℕ) → ℕ → ℕ → Bool × World → Option Running × World
with_inherited api environ n tok (false, w) = (none, close_all (all_files n) w)
with_inherited api environ n tok (true, w) =
    with_texts api n tok (encoded api environ w) (tick (tick w))

abbrev pub with_nul : Api → List (List ℕ) → ℕ → ℕ → Bool → World → Option Running × World
with_nul api environ n tok false w =
    (none, close_all (n ∷ (n + 1) ∷ (n + 2) ∷ (n + 3) ∷ []) (tick w))
with_nul api environ n tok true w =
    with_inherited api environ n tok
      (inherited api ((n + 1) ∷ (n + 3) ∷ (n + 4) ∷ []) (new_handle false w))

abbrev pub with_err : Api → List (List ℕ) → ℕ → ℕ → Bool → World → Option Running × World
with_err api environ n tok false w = (none, close_all (n ∷ (n + 1) ∷ []) (tick w))
with_err api environ n tok true w =
    with_nul api environ n tok (api.succeeds open_nul (w.clock + 1)) (new_pipe w)

abbrev pub with_out : Api → List (List ℕ) → ℕ → Bool → World → Option Running × World
with_out api environ tok false w = (none, tick w)
with_out api environ tok true w =
    with_err api environ w.next tok (api.succeeds create_pipe (w.clock + 1)) (new_pipe w)

abbrev pub with_path : Api → List (List ℕ) → ℕ → Bool → World → Option Running × World
with_path api environ tok false w = (none, tick w)
with_path api environ tok true w =
    with_out api environ tok (api.succeeds create_pipe (w.clock + 1)) (tick w)

unfoldable pub start_with_token_w : Api → List (List ℕ) → ℕ → World → Option Running × World
start_with_token_w api environ tok w = with_path api environ tok (api.succeeds look_path w.clock) w

-- startCmd, whose handles the library keeps.
abbrev pub run_cmd : Bool → Bool → World → Option Running × World
run_cmd false e w = (none, tick w)
run_cmd true e w = (some (record { elevated = e; handles = [] }), tick w)

abbrev pub or_as_user : Api → ℕ → Option Running × World → Option Running × World
or_as_user api tok (some run, w) = (some run, w)
or_as_user api tok (none, w) =
    run_cmd (api.succeeds start_cmd w.clock) (w.elevated tok) (with_handle tok w)

unfoldable pub start_with_token : Api → List (List ℕ) → ℕ → World → Option Running × World
start_with_token api environ tok w = or_as_user api tok (start_with_token_w api environ tok w)

abbrev pub with_token : Api → List (List ℕ) → Option ℕ × World → Option Running × World
with_token api environ (none, w) = (none, w)
with_token api environ (some tok, w) = closing tok (start_with_token api environ tok w)

abbrev pub with_self : Api → List (List ℕ) → ℕ → Bool × World → Option Running × World
with_self api environ self (false, w) = run_cmd (api.succeeds start_cmd w.clock) (w.elevated self) w
with_self api environ self (true, w) = with_token api environ (unprivileged_token api self w)

abbrev pub from_self : Api → List (List ℕ) → Option ℕ × World → Option Running × World
from_self api environ (none, w) = (none, w)
from_self api environ (some self, w) =
    closing self (with_self api environ self (is_elevated api self w))

unfoldable pub start_child : Api → List (List ℕ) → World → Option Running × World
start_child api environ w = from_self api environ (token_of api open_process_token w)
