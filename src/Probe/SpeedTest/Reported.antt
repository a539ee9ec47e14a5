-- ===== src/Probe/SpeedTest/Reported.antt =====
-- What the results of a speed test say.
use nunya_core.Common.{
  ℕ, suc, ◌≡◌, refl, Bool, true, false, not, ◌&&◌, none, some, List, [], ◌∷◌, inl, inr, arith,
  Bool-cases, is_some,
}
use nunya_core.Probe.SpeedTest.{
  canceled, other, SpeedTestResult, Run, no_server, ended, interrupted, Kind, one_result,
  batch_speed_test,
}

-- No error, and not cancelled.
abbrev pub is_silent : SpeedTestResult → Bool
is_silent r = not (is_some r.error) && not r.cancelled

-- The test ran to its end without an error, or its search for a server was cancelled, or, where it is
-- no simple download, its own context was cancelled.
abbrev pub ran_silently : Kind → Run → Bool
ran_silently k (no_server canceled) = true
ran_silently k (no_server (other text)) = false
ran_silently k (ended dl ul none) = true
ran_silently k (ended dl ul (some canceled)) = not k.simple_dl
ran_silently k (ended dl ul (some (other text))) = false
ran_silently k (interrupted dl ul e) = false

pub record OneResult (k : Kind) (tag : List ℕ) (found : Bool) (run : Run) (r : SpeedTestResult)
    : Type 0 where
  pub tagged : r.tag ≡ tag
  pub missed : found ≡ false → is_some r.error ≡ true
  pub silent : found ≡ true → is_silent r ≡ ran_silently k run
  pub no_dl : not k.test_dl && not k.simple_dl ≡ true → r.dl_speed ≡ []
  pub no_ul : k.test_ul ≡ false → r.ul_speed ≡ []

silent_run :
    (k : Kind) (tag : List ℕ) (run : Run)
    → is_silent (one_result k tag true run) ≡ ran_silently k run
unfolding one_result
silent_run k tag run = ground arith

tagged_run : (k : Kind) (tag : List ℕ) (run : Run) → (one_result k tag true run).tag ≡ tag
unfolding one_result
tagged_run k tag run = ground arith

one_result-OneResult :
    (k : Kind) (tag : List ℕ) (found : Bool) (run : Run)
    → OneResult k tag found run (one_result k tag found run)
unfolding one_result
one_result-OneResult k tag false run = record {
  tagged = refl;
  missed = λ e. refl;
  silent = λ e. cc;
  no_dl = λ e. refl;
  no_ul = λ e. refl;
}
one_result-OneResult k tag true run = record {
  tagged = tagged_run k tag run;
  missed = λ e. cc;
  silent = λ e. silent_run k tag run;
  no_dl = λ e. ground arith;
  no_ul = λ e. ground arith;
}

module _ (found : List ℕ → Bool) (done : ℕ → Bool) (run : ℕ → Run) (k : Kind) where
  -- The results are those of the first tags, up to the first before which the context is done.
  abbrev pub Reports : ℕ → List (List ℕ) → List SpeedTestResult → Type 0
  Reports i [] [] = Unit {0}
  Reports i [] (r ∷ results) = ⊥
  Reports i (tag ∷ tags) [] = done i ≡ true
  Reports i (tag ∷ tags) (r ∷ results) =
      (done i ≡ false) × OneResult k tag (found tag) (run i) r × Reports (suc i) tags results

  pub batch-Reports :
      (i : ℕ) (tags : List (List ℕ)) → Reports i tags (batch_speed_test found done run k i tags)
  unfolding batch_speed_test
  batch-Reports i [] = tt
  batch-Reports i (tag ∷ tags) = elim (Bool-cases (done i)) [
    | inl e ↦ rw e e
    | inr e ↦ rw e (e, one_result-OneResult k tag (found tag) (run i), batch-Reports (suc i) tags)
  ]
