-- ===== src/Mobile/Monitor.antt =====
-- mobile/monitor.go: the default interface of a platform and who is told of it. An interface has a
-- name and index, and other fields; a callback is a number; a call of it is recorded in `calls`, the last one first.
-- The platform makes one update at a time.
pub mod Told
use nunya_core.Common.{
  ℕ, ◌+◌, Bool, true, false, not, ◌&&◌, ◌||◌, Option, none, some, List, [], ◌∷◌, ◌++◌, ◌==◌,
  if◌then◌else◌, eq_text,
}

pub record Interface : Type 0 where
  pub name : List ℕ
  pub index : ℕ
  pub details : List ℕ  -- its addresses, its flags and the like

pub record Call : Type 0 where
  pub callback : ℕ
  pub interface : Option Interface

pub record Monitor : Type 0 where
  pub default_interface : Option Interface
  pub default_interface_initialized : Bool
  pub is_expensive : Bool
  pub is_constrained : Bool
  pub callbacks : List ℕ
  pub my_interfaces : List (List ℕ)
  pub calls : List Call

abbrev pub register_callback : ℕ → Monitor → Monitor
register_callback c m = record m { callbacks = m.callbacks ++ (c ∷ []) }

-- The element of a list is there once.
unfoldable pub without : ℕ → List ℕ → List ℕ
without c [] = []
without c (x ∷ xs) = let rest = without c xs in if x == c then xs else x ∷ rest

unfoldable pub unregister_callback : ℕ → Monitor → Monitor
unfolding without
unregister_callback c m = record m { callbacks = without c m.callbacks }

abbrev pub register_my_interface : List ℕ → Monitor → Monitor
register_my_interface name m = record m { my_interfaces = m.my_interfaces ++ (name ∷ []) }

-- The loop over the callbacks.
unfoldable pub tell : List ℕ → Option Interface → List Call → List Call
tell [] i calls = calls
tell (c ∷ callbacks) i calls = tell callbacks i (record { callback = c; interface = i } ∷ calls)

abbrev pub same_interface : Option Interface → Interface → Bool
same_interface none new = false
same_interface (some old) new = eq_text old.name new.name && old.index == new.index

abbrev pub change_to : Option Interface → Monitor → Monitor
change_to i m = record m {
  default_interface = i;
  default_interface_initialized = true;
  calls = tell m.callbacks i m.calls;
}

-- What ByIndex yields.
abbrev pub found_interface : Option Interface → Monitor → Monitor
found_interface none m = m
found_interface (some new) m =
    if m.default_interface_initialized && same_interface m.default_interface new
    then record m { default_interface = some new }
    else change_to (some new) m

-- updateDefaultInterface; `lost` says that the index is -1. An error of UpdateInterfaces is logged.
unfoldable pub update_default_interface : Bool → Bool → Bool → Option Interface → Monitor → Monitor
unfolding eq_text tell
update_default_interface true expensive constrained found m =
    change_to none (record m { is_expensive = expensive; is_constrained = constrained })
update_default_interface false expensive constrained found m =
    found_interface found (record m { is_expensive = expensive; is_constrained = constrained })

pub data Event : Type 0 where
  registers : ℕ → Event
  unregisters : ℕ → Event
  registers_mine : List ℕ → Event
  updates : Bool → Bool → Bool → Option Interface → Event

abbrev pub apply : Event → Monitor → Monitor
apply (registers c) m = register_callback c m
apply (unregisters c) m = unregister_callback c m
apply (registers_mine name) m = register_my_interface name m
apply (updates lost expensive constrained found) m =
    update_default_interface lost expensive constrained found m

unfoldable pub run : List Event → Monitor → Monitor
unfolding unregister_callback update_default_interface
run [] m = m
run (e ∷ events) m = run events (apply e m)

-- newPlatformInterfaceWrapper with the monitor of a box.
abbrev pub new_monitor : Monitor
new_monitor = record {
  default_interface = none;
  default_interface_initialized = false;
  is_expensive = false;
  is_constrained = false;
  callbacks = [];
  my_interfaces = [];
  calls = [];
}
