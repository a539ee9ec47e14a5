-- ===== src/Mobile/Monitor/Told.antt =====
-- What a callback was told last.
use nunya_core.Common.{
  ℕ, ◌≡◌, refl, Bool, true, false, not, ◌&&◌, Option, none, some, List, [], ◌∷◌, ◌==◌,
  if◌then◌else◌, eq_text→eq, eq_text_refl, ==_refl, contains, contains-append, Bool-cases, inl, inr,
  arith,
}
use nunya_core.Mobile.Monitor.{
  Interface, Call, Monitor, register_callback, without, unregister_callback, tell, same_interface,
  change_to, found_interface, update_default_interface, Event, registers, unregisters,
  registers_mine, updates, apply, run, new_monitor,
}

-- The last call of a callback: none, or what it was told.
unfoldable pub last_told : ℕ → List Call → Option (Option Interface)
last_told c [] = none
last_told c (x ∷ calls) =
    let rest = last_told c calls in if x.callback == c then some x.interface else rest

-- The events do not unregister `c`.
abbrev pub keeps_one : ℕ → Event → Bool
keeps_one c (unregisters d) = not (d == c)
keeps_one c _ = true

unfoldable pub keeps : ℕ → List Event → Bool
keeps c [] = true
keeps c (e ∷ events) = keeps_one c e && keeps c events

-- The same interface, or none in both places.
abbrev pub agrees : Option Interface → Option Interface → Bool
agrees none none = true
agrees (some j) none = false
agrees j (some i) = same_interface j i

-- Before an update that counts there is no default interface and nothing was told; from then on the
-- last that was told has the name and the index of the default interface, or is that there is none.
abbrev pub IsTold : Bool → Option (Option Interface) → Option Interface → Type 0
IsTold false told i = (told ≡ none) × (i ≡ none)
IsTold true told i = (j : Option Interface) × (told ≡ some j) × (agrees j i ≡ true)

record ToldInv (c : ℕ) (m : Monitor) : Type 0 where
  listed : contains m.callbacks c ≡ true
  told : IsTold m.default_interface_initialized (last_told c m.calls) m.default_interface

last_told-tell :
    (c : ℕ) (callbacks : List ℕ) (i : Option Interface) (calls : List Call)
    → last_told c (tell callbacks i calls)
      ≡ (if contains callbacks c then some i else last_told c calls)
unfolding last_told tell contains
last_told-tell c [] i calls = refl
last_told-tell c (d ∷ callbacks) i calls =
    ground (arith, last_told-tell c callbacks i (record { callback = d; interface = i } ∷ calls))

contains-without :
    (d c : ℕ) (xs : List ℕ) → (d == c) ≡ false → contains (without d xs) c ≡ contains xs c
unfolding without contains
contains-without d c [] e = refl
contains-without d c (x ∷ xs) e = ground (arith, contains-without d c xs)

agrees_self : (i : Option Interface) → agrees i i ≡ true
agrees_self none = refl
agrees_self (some i) = ground (arith, eq_text_refl i.name, ==_refl i.index)

agrees_trans :
    (j i : Option Interface) (new : Interface)
    → agrees j i ≡ true
    → same_interface i new ≡ true
    → agrees j (some new) ≡ true
agrees_trans j none new e f = cc
agrees_trans none (some i) new e f = cc
agrees_trans (some j) (some i) new e f = ground (arith, eq_text→eq j.name i.name, e, f)

change-ToldInv :
    (c : ℕ) (i : Option Interface) (m : Monitor)
    → contains m.callbacks c ≡ true
    → ToldInv c (change_to i m)
change-ToldInv c i m l = record {
  listed = l;
  told = (i, ground (arith, last_told-tell c m.callbacks i m.calls, l), agrees_self i);
}

new-IsTold :
    (b : Bool) (told : Option (Option Interface)) (i : Option Interface) (new : Interface)
    → IsTold b told i
    → (b && same_interface i new) ≡ true
    → IsTold b told (some new)
new-IsTold false told i new t e = cc
new-IsTold true told i new (j, f, g) e = (j, f, agrees_trans j i new g e)

found-ToldInv :
    (c : ℕ) (found : Option Interface) (m : Monitor)
    → ToldInv c m
    → ToldInv c (found_interface found m)
found-ToldInv c none m t = t
found-ToldInv c (some new) m t =
    elim (Bool-cases (m.default_interface_initialized && same_interface m.default_interface new)) [
      | inl e ↦ rw e (record { listed = t.listed; told = new-IsTold _ _ _ new t.told e })
      | inr e ↦ rw e (change-ToldInv c (some new) m t.listed)
    ]

apply-ToldInv :
    (c : ℕ) (e : Event) (m : Monitor) → keeps_one c e ≡ true → ToldInv c m → ToldInv c (apply e m)
unfolding update_default_interface unregister_callback contains
apply-ToldInv c (registers d) m k t = record {
  listed = ground (arith, contains-append m.callbacks (d ∷ []) c, t.listed);
  told = t.told;
}
apply-ToldInv c (unregisters d) m k t = record {
  listed = ground (arith, contains-without d c m.callbacks, t.listed);
  told = t.told;
}
apply-ToldInv c (registers_mine name) m k t = record { listed = t.listed; told = t.told }
apply-ToldInv c (updates true x y found) m k t =
    change-ToldInv c none (record m { is_expensive = x; is_constrained = y }) t.listed
apply-ToldInv c (updates false x y found) m k t =
    found-ToldInv c found (record m { is_expensive = x; is_constrained = y })
      (record { listed = t.listed; told = t.told })

run-ToldInv :
    (c : ℕ) (events : List Event) (m : Monitor)
    → keeps c events ≡ true
    → ToldInv c m
    → ToldInv c (run events m)
unfolding run keeps
run-ToldInv c [] m k t = t
run-ToldInv c (e ∷ events) m k t =
    run-ToldInv c events (apply e m) (ground arith) (apply-ToldInv c e m (ground arith) t)

-- After any sequence of calls on a new monitor in which a callback is registered before any update
-- and then not unregistered: as long as no update has counted (each one failed to find its
-- interface) there is no default interface and the callback was not called; from then on, the last
-- that it was told has the name and the index of the default interface as it is now, or is that
-- there is none, where there is none.
pub callback-IsTold :
    (c : ℕ) (events : List Event)
    → keeps c events ≡ true
    → IsTold
        (run (registers c ∷ events) new_monitor).default_interface_initialized
        (last_told c (run (registers c ∷ events) new_monitor).calls)
        (run (registers c ∷ events) new_monitor).default_interface
unfolding run contains last_told
callback-IsTold c events k =
    (run-ToldInv c events (register_callback c new_monitor) k
      (record { listed = ground arith; told = (refl, refl) })).told
