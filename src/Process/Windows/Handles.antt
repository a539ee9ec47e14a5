-- ===== src/Process/Windows/Handles.antt =====
-- The handles that process_windows.go holds. Windows answers by the record Api, where each call
-- has its number; a World holds the open handles, which token is elevated, and how many calls were
-- made with a handle that is not open.
pub mod Leaves
use nunya_core.Common.{
  ℕ, ◌+◌, Bool, true, false, ◌&&◌, Option, none, some, List, [], ◌∷◌, ◌==◌, if◌then◌else◌, contains,
}

pub data Call : Type 0 where
  open_process_token : Call
  duplicate_token_ex : Call
  get_linked_token : Call
  query_elevation : Call
  wts_query_user_token : Call
  open_process : Call
  get_token_groups : Call
  set_integrity : Call
  create_snapshot : Call
  look_path : Call
  create_pipe : Call
  open_nul : Call
  set_inherit : Call
  encode_text : Call
  create_process_with_token : Call
  start_cmd : Call

-- A group's SID; `well_known` tells whether it is that of the built-in administrators.
pub record Sid : Type 0 where
  pub valid : Bool
  pub well_known : Bool
  pub sub_authorities : List ℕ

pub record Api : Type 0 where
  pub succeeds : Call → ℕ → Bool
  pub restricts : Bool → List (Option Sid) → ℕ → Bool  -- with LUA_TOKEN or without, by call
  pub elevated : ℕ → Bool  -- a token that is opened
  pub copy_elevated : Bool → ℕ → Bool  -- a duplicate, by its source
  pub groups : List (Option Sid)
  pub own_session : Option ℕ
  pub console_session : ℕ
  pub sessions : Option (List (ℕ × Bool))  -- each with whether it is active
  pub session_of : ℕ → Option ℕ
  pub processes : List (ℕ × List ℕ)

pub record World : Type 0 where
  pub clock : ℕ
  pub next : ℕ
  pub handles : List ℕ
  pub elevated : ℕ → Bool
  pub faults : ℕ

abbrev pub tick : World → World
tick w = record w { clock = w.clock + 1 }

-- A call with a handle.
unfoldable pub with_handle : ℕ → World → World
with_handle h w = if contains w.handles h then w else record w { faults = w.faults + 1 }

unfoldable pub remove : ℕ → List ℕ → List ℕ
remove h [] = []
remove h (x ∷ xs) = let rest = remove h xs in if x == h then xs else x ∷ rest

unfoldable pub close : ℕ → World → World
close h w = record (with_handle h w) { handles = remove h w.handles }

abbrev pub closing : {A : Type 0} → ℕ → Option A × World → Option A × World
closing h (r, w) = (r, close h w)

abbrev pub new_handle : Bool → World → World
new_handle e w = record w {
  clock = w.clock + 1;
  next = w.next + 1;
  handles = w.next ∷ w.handles;
  elevated = λ n. if n == w.next then e else w.elevated n;
}

-- A handle from a call, if it succeeds.
unfoldable pub obtain : Bool → Bool → World → Option ℕ × World
obtain false e w = (none, tick w)
obtain true e w = (some w.next, new_handle e w)

abbrev pub and_then :
    {A B : Type 0} → Option A × World → (A → World → Option B × World) → Option B × World
and_then (none, w) f = (none, w)
and_then (some a, w) f = f a w

abbrev pub or_else : {A : Type 0} → Option A × World → (World → Option A × World) → Option A × World
or_else (none, w) f = f w
or_else (some a, w) f = (some a, w)

-- A handle that is open only while `f` runs, which is deferred after it was obtained.
abbrev pub within :
    {A : Type 0} → Option ℕ × World → (ℕ → World → Option A × World) → Option A × World
within m f = and_then m (λ h w. closing h (f h w))

-- Token.IsElevated, which is false if the query fails.
unfoldable pub is_elevated : Api → ℕ → World → Bool × World
is_elevated api h w = (api.succeeds query_elevation w.clock && w.elevated h, tick (with_handle h w))

unfoldable pub primary_token : Api → ℕ → World → Option ℕ × World
primary_token api src w =
    obtain (api.succeeds duplicate_token_ex w.clock) (api.copy_elevated (w.elevated src) w.clock)
      (with_handle src w)
