-- ===== src/Mobile/TestEnv/Same.antt =====
-- prepareTestEnv of mobile does what that of internal/rpc does.
use nunya_core.Common.{
  ℕ, ◌≡◌, refl, sym, ap, ◌∙◌, Bool, true, false, Option, none, some, List, [], ◌∷◌, ◌++◌,
  if◌then◌else◌, some_cancel, Bool-cases, inl, inr, arith,
}
use nunya_core.Xray.Gate.{Bringup}
use nunya_core.Xray.Startup.{World, start_xray_instance, start_xray_full_configs}
use nunya_core.Xray.Startup.Opened.{IsFresh}
use nunya_core.Rpc.TestEnv
use nunya_core.Rpc.TestEnv.{
  Cleanup, close_instance, close_instances, unwind, TestRequest, Running, TestEnv,
}
use nunya_core.Rpc.TestEnv.Undone.{closes, unwind_live, EnvPost, prepare_test_env-EnvPost}
use nunya_core.Mobile.Instance.{App}
use nunya_core.Mobile.TestEnv.{
  BoxAnswer, parse_fails, new_fails, box_start_fails, box_starts, current_env, prepare_box,
  prepare_full, prepare_sidecar, prepare_own, prepare_test_env,
}

-- What boxmain.Create, which makes and starts the box, answers in these cases.
abbrev pub created : BoxAnswer → Option (List ℕ)
created parse_fails = none
created new_fails = none
created box_start_fails = none
created (box_starts default_tag) = some default_tag

-- An environment that is closed at once.
abbrev closed_at_once : Option TestEnv × World → Option TestEnv × World
closed_at_once (none, w) = (none, w)
closed_at_once (some env, w) = (none, unwind env.close w)

-- The two run alike where the box starts or is not made; where its Start fails, mobile runs as the
-- other with a box that starts and is closed at once.
abbrev Alike :
    (box : BoxAnswer) (f : Option (List ℕ) → Option TestEnv × World)
    → Option TestEnv × World
    → Type 0
Alike parse_fails f r = r ≡ f none
Alike new_fails f r = r ≡ f none
Alike box_start_fails f r = r ≡ closed_at_once (f (some []))
Alike (box_starts t) f r = r ≡ f (some t)

module _ (req : TestRequest) where
  box-Alike :
      (box : BoxAnswer) (cs : List Cleanup) (w : World)
      → Alike box (λ o. TestEnv.prepare_box req o cs w) (prepare_box req box cs w)
  unfolding unwind
  box-Alike parse_fails cs w = refl
  box-Alike new_fails cs w = refl
  box-Alike box_start_fails cs w = refl
  box-Alike (box_starts t) cs w = refl

  failed-Alike : (box : BoxAnswer) (w : World) → Alike box (λ o. (none, w)) (none, w)
  failed-Alike parse_fails w = refl
  failed-Alike new_fails w = refl
  failed-Alike box_start_fails w = refl
  failed-Alike (box_starts t) w = refl

  full-Alike :
      (box : BoxAnswer) (cs : List Cleanup) (r : Option (List ℕ) × World)
      → Alike box (λ o. TestEnv.prepare_full req o cs r) (prepare_full req box cs r)
  full-Alike box cs (none, w) = failed-Alike box (unwind cs w)
  full-Alike box cs (some hs, w) = box-Alike box (cs ++ (close_instances hs ∷ [])) w

  sidecar-Alike :
      (full : List Bringup) (box : BoxAnswer) (r : Option ℕ × World)
      → Alike box (λ o. TestEnv.prepare_sidecar req full o r) (prepare_sidecar req full box r)
  unfolding unwind
  sidecar-Alike full box (none, w) = failed-Alike box w
  sidecar-Alike full box (some h, w) =
      full-Alike box (close_instance h ∷ []) (start_xray_full_configs full w)

  own-Alike :
      (running : Option Running) (sidecar : Bringup) (full : List Bringup) (box : BoxAnswer)
      (w : World)
      → req.current ≡ false
      → Alike box
          (λ o. TestEnv.prepare_test_env req running sidecar full o w)
          (prepare_own req sidecar full box w)
  unfolding prepare_own TestEnv.prepare_test_env
  own-Alike running sidecar full box w c = elim (Bool-cases req.need_xray) [
    | inl x ↦ rw (c, x) (sidecar-Alike full box (start_xray_instance sidecar w))
    | inr x ↦ rw (c, x) (full-Alike box [] (start_xray_full_configs full w))
  ]

  -- Without a box, the other has no environment either.
  no_full :
      (cs : List Cleanup) (r : Option (List ℕ) × World)
      → (TestEnv.prepare_full req none cs r).0 ≡ none
  no_full cs (none, w) = refl
  no_full cs (some hs, w) = refl

  no_sidecar :
      (full : List Bringup) (r : Option ℕ × World)
      → (TestEnv.prepare_sidecar req full none r).0 ≡ none
  no_sidecar full (none, w) = refl
  no_sidecar full (some h, w) = no_full (close_instance h ∷ []) (start_xray_full_configs full w)

  no_box :
      (running : Option Running) (sidecar : Bringup) (full : List Bringup) (w : World)
      → req.current ≡ false
      → (TestEnv.prepare_test_env req running sidecar full none w).0 ≡ none
  unfolding TestEnv.prepare_test_env
  no_box running sidecar full w c = elim (Bool-cases req.need_xray) [
    | inl x ↦ rw (c, x) (no_sidecar full (start_xray_instance sidecar w))
    | inr x ↦ rw (c, x) (no_full [] (start_xray_full_configs full w))
  ]

-- The same environment or none, and the same runs.
abbrev pub SameEnv : ℕ → Option TestEnv × World → Option TestEnv × World → Type 0
SameEnv n r s = (r.0 ≡ s.0) × (r.1.live n ≡ s.1.live n)

same_eq : (n : ℕ) {r s : Option TestEnv × World} → r ≡ s → SameEnv n r s
same_eq n e =
    (ap (λ (x : Option TestEnv × World). x.0) e, ap (λ (x : Option TestEnv × World). x.1.live n) e)

closed-EnvPost :
    (n : ℕ) (w : World) (r : Option TestEnv × World)
    → EnvPost n w r
    → ((closed_at_once r).0 ≡ none) × ((closed_at_once r).1.live n ≡ w.live n)
closed-EnvPost n w (none, v) p = (refl, p)
closed-EnvPost n w (some env, v) p = (refl, p)

failed-EnvPost :
    (n : ℕ) (w : World) (r : Option TestEnv × World)
    → EnvPost n w r
    → r.0 ≡ none
    → r.1.live n ≡ w.live n
failed-EnvPost n w (none, v) p e = p
failed-EnvPost n w (some env, v) p e = cc

Alike-SameEnv :
    (n : ℕ) (w : World) (box : BoxAnswer) (f : Option (List ℕ) → Option TestEnv × World)
    (r : Option TestEnv × World)
    → ((o : Option (List ℕ)) → EnvPost n w (f o))
    → (f none).0 ≡ none
    → Alike box f r
    → SameEnv n r (f (created box))
Alike-SameEnv n w parse_fails f r p z a = same_eq n a
Alike-SameEnv n w new_fails f r p z a = same_eq n a
Alike-SameEnv n w (box_starts t) f r p z a = same_eq n a
Alike-SameEnv n w box_start_fails f r p z a =
    let c = closed-EnvPost n w (f (some [])) (p (some [])) in
    let s = same_eq n a in
    (s.0 ∙ c.0 ∙ sym z, s.1 ∙ c.1 ∙ sym (failed-EnvPost n w (f none) (p none) z))

current_same :
    (req : TestRequest) (r : Option Running) → current_env req r ≡ TestEnv.current_env req r
current_same req none = refl
current_same req (some r) = ground arith

own_same :
    (n : ℕ) (w : World) (running : Option Running) (req : TestRequest) (sidecar : Bringup)
    (full : List Bringup) (box : BoxAnswer)
    → IsFresh n w
    → req.current ≡ false
    → SameEnv n
        (prepare_own req sidecar full box w)
        (TestEnv.prepare_test_env req running sidecar full (created box) w)
own_same n w running req sidecar full box f c =
    Alike-SameEnv n w box (λ o. TestEnv.prepare_test_env req running sidecar full o w)
      (prepare_own req sidecar full box w)
      (λ o. prepare_test_env-EnvPost n w req running sidecar full o f)
      (no_box req running sidecar full w c) (own-Alike req running sidecar full box w c)

-- For every request and every answer of the calls, where no handle to come is live, prepareTestEnv of
-- mobile, given the request's own flag, has the environment that prepareTestEnv of internal/rpc has,
-- or fails where that fails, and the same runs afterwards; boxmain.Create fails exactly where
-- parsing, box.New or the box's Start fails.
pub prepare_test_env_copies :
    (n : ℕ) (app : App) (running : Option Running) (platform : Option ℕ) (req : TestRequest)
    (sidecar : Bringup) (full : List Bringup) (box : BoxAnswer) (test_current : Bool)
    → IsFresh n app.world
    → req.current ≡ test_current
    → let m = prepare_test_env running test_current platform req sidecar full box app in
      SameEnv n
        (m.0, m.1.world)
        (TestEnv.prepare_test_env req running sidecar full (created box) app.world)
unfolding prepare_test_env TestEnv.prepare_test_env
prepare_test_env_copies n app running platform req sidecar full box true f c =
    simp c (current_same req running, refl)
prepare_test_env_copies n app running none req sidecar full box false f c =
    own_same n app.world running req sidecar full box f c
prepare_test_env_copies n app running (some p) req sidecar full box false f c =
    own_same n app.world running req sidecar full box f c

-- What runs after the cleanups depends on what ran before them, at each handle.
unwind_same :
    (n : ℕ) (cs : List Cleanup) (v w : World)
    → v.live n ≡ w.live n
    → (unwind cs v).live n ≡ (unwind cs w).live n
unwind_same n cs v w e =
    unwind_live n cs v
    ∙ ap (λ (b : Bool). if closes n cs then false else b) e
    ∙ sym (unwind_live n cs w)

SameEnv-EnvPost :
    (n : ℕ) (u : World) (r s : Option TestEnv × World)
    → SameEnv n r s
    → EnvPost n u s
    → EnvPost n u r
SameEnv-EnvPost n u (none, v) (none, w) e p = e.1 ∙ p
SameEnv-EnvPost n u (none, v) (some env, w) e p = cc
SameEnv-EnvPost n u (some env, v) (none, w) e p = cc
SameEnv-EnvPost n u (some env, v) (some other, w) e p =
    unwind_same n env.close v w e.1
    ∙ ap (λ (x : TestEnv). (unwind x.close w).live n) (some_cancel e.0)
    ∙ p

-- So a prepareTestEnv of mobile that fails leaves what runs as it was, and closing the environment of
-- one that succeeds does.
pub mobile_env-EnvPost :
    (n : ℕ) (app : App) (running : Option Running) (platform : Option ℕ) (req : TestRequest)
    (sidecar : Bringup) (full : List Bringup) (box : BoxAnswer)
    → IsFresh n app.world
    → let m = prepare_test_env running req.current platform req sidecar full box app in
      EnvPost n app.world (m.0, m.1.world)
mobile_env-EnvPost n app running platform req sidecar full box f =
    let m = prepare_test_env running req.current platform req sidecar full box app in
    SameEnv-EnvPost n app.world (m.0, m.1.world)
      (TestEnv.prepare_test_env req running sidecar full (created box) app.world)
      (prepare_test_env_copies n app running platform req sidecar full box req.current f refl)
      (prepare_test_env-EnvPost n app.world req running sidecar full (created box) f)
