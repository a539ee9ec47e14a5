-- ===== src/Rpc/Diagnostics/Released.antt =====
-- No profiler goes on after a capture.
use nunya_core.Common.{
  ℕ, ◌≡◌, refl, Bool, true, false, ◌||◌, List, if◌then◌else◌, has_text, codes, not, ◌++◌, ◌⊎◌, ◌<◌,
  All, none,
}
use nunya_core.Rpc.Diagnostics.Names.{is_base}
use nunya_core.Rpc.Diagnostics.{
  Profilers, Answers, Attachment, Request, CaptureReply, not_positive, already_running, too_large,
  panicked, archive, lock_capture,
}

-- The profilers are as before, and the block profile is off if this capture turned it on.
pub record Restored (contention : Bool) (s t : Profilers) : Type 0 where
  fraction : t.mutex_fraction ≡ s.mutex_fraction
  block : t.block_rate ≡ (if contention then 0 else s.block_rate)
  cpu : s.cpu ≡ false → t.cpu ≡ false
  tracing : s.tracing ≡ false → t.tracing ≡ false
  locked : t.locked ≡ s.locked
  stop : t.stop ≡ s.stop

-- A name in the folder of the attachments.
abbrev pub IsInside : List ℕ → Type 0
IsInside name = (b : List ℕ) × (name ≡ codes "app/" ++ b) × (is_base b ≡ true)

-- An attachment whose own name is fit for a file is there under that name.
abbrev pub is_there : List (List ℕ) → Attachment → Bool
is_there names x = not (is_base x.name) || has_text names (codes "app/" ++ x.name)

-- What a capture that has taken the lock leaves of the profilers.
abbrev pub Inside : List Attachment → CaptureReply → Type 0
Inside xs not_positive = ⊥
Inside xs already_running = ⊥
Inside xs too_large = Unit {0}
Inside xs panicked = Unit {0}
Inside xs (archive names) = All IsInside names × All (λ x. is_there names x ≡ true) xs

abbrev pub LockedPost : Request → Profilers → CaptureReply × Profilers → Type 0
LockedPost req s r =
    Inside req.attachments r.0
    × (r.1.mutex_fraction ≡ s.mutex_fraction)
    × ((r.1.block_rate ≡ s.block_rate) ⊎ ((req.contention ≡ true) × (r.1.block_rate ≡ 0)))
    × (s.cpu ≡ false → r.1.cpu ≡ false)
    × (s.tracing ≡ false → r.1.tracing ≡ false)
    × (s.stop ≡ none → r.1.stop ≡ none)

abbrev pub CapturePost : Request → Profilers → CaptureReply × Profilers → Type 0
CapturePost req s r =
    (req.duration_ms ≡ 0 → r ≡ (not_positive, s))
    × (0 < req.duration_ms → s.locked ≡ true → r ≡ (already_running, s))
    × (0 < req.duration_ms → s.locked ≡ false → LockedPost req s r × (r.1.locked ≡ false))

held :
    (req : Request) (a : Answers) (late : Bool) (h : ℕ) (s : Profilers) (locked : Bool)
    → locked ≡ true
    → lock_capture req a late h s locked ≡ (already_running, s)
held req a late h s true e = refl
held req a late h s false e = cc
