-- ===== src/Rpc/TestEnv/Undone.antt =====
-- A test environment leaves nothing behind.
use nunya_core.Common.{
  ℕ, ◌≡◌, ◌≤◌, ◌<◌, refl, Bool, true, false, ◌||◌, Option, none, some, List, [], ◌∷◌, ◌++◌, ◌==◌,
  if◌then◌else◌, contains, arith, Bool-cases, inl, inr,
}
use nunya_core.Xray.Gate.{Bringup, create_fails, prepare_fails, start_fails, succeeds}
use nunya_core.Xray.Startup.{World, begin, start_xray_instance, start_xray_full_configs}
use nunya_core.Xray.Startup.Opened.{IsFresh, FullPost, start_xray_full_configs-FullPost}
use nunya_core.Rpc.TestEnv.{
  Cleanup, close_instance, close_box, close_instances, unwind, TestRequest, Running, TestEnv,
  current_env, prepare_box, prepare_full, prepare_sidecar, prepare_test_env,
}

pub closes : ℕ → List Cleanup → Bool
closes n [] = false
closes n (close_instance h ∷ cs) = n == h || closes n cs
closes n (close_box h ∷ cs) = n == h || closes n cs
closes n (close_instances hs ∷ cs) = contains hs n || closes n cs

closes-append : (n : ℕ) (cs ds : List Cleanup) → closes n (cs ++ ds) ≡ (closes n cs || closes n ds)
unfolding closes
closes-append n [] ds = refl
closes-append n (close_instance h ∷ cs) ds = ground (arith, closes-append n cs ds)
closes-append n (close_box h ∷ cs) ds = ground (arith, closes-append n cs ds)
closes-append n (close_instances hs ∷ cs) ds = ground (arith, closes-append n cs ds)

pub unwind_live :
    (n : ℕ) (cs : List Cleanup) (w : World)
    → (unwind cs w).live n ≡ (if closes n cs then false else w.live n)
unfolding unwind closes
unwind_live n [] w = refl
unwind_live n (close_instance h ∷ cs) w = ground (arith, unwind_live n cs w)
unwind_live n (close_box h ∷ cs) w = ground (arith, unwind_live n cs w)
unwind_live n (close_instances hs ∷ cs) w = ground (arith, unwind_live n cs w)

-- At a handle `n`, the cleanups name what has been started since `w`.
record Covers (n : ℕ) (w : World) (cs : List Cleanup) (v : World) : Type 0 where
  same : v.live n ≡ (closes n cs || w.live n)
  grows : w.next ≤ v.next
  new_from : closes n cs ≡ true → w.next ≤ n
  new_to : closes n cs ≡ true → n < v.next

-- A failure leaves what runs as it was; after a success, closing the environment does.
abbrev pub EnvPost : ℕ → World → Option TestEnv × World → Type 0
EnvPost n w (none, v) = v.live n ≡ w.live n
EnvPost n w (some env, v) = (unwind env.close v).live n ≡ w.live n

module _ (n : ℕ) (w : World) (f : IsFresh n w) (req : TestRequest) (box : Option (List ℕ)) where
  undone : (cs : List Cleanup) (v : World) → Covers n w cs v → (unwind cs v).live n ≡ w.live n
  undone cs v c = ground (arith, unwind_live n cs v, c.same, c.new_from)

  box-EnvPost :
      (cs : List Cleanup) (v : World) → Covers n w cs v → EnvPost n w (prepare_box req box cs v)
  unfolding closes
  box-EnvPost cs v c = elim box as (λ o. EnvPost n w (prepare_box req o cs v)) [
    | none ↦ undone cs v c
    | some t ↦ undone (cs ++ (close_box v.next ∷ [])) (begin v) (record {
      same = ground (arith, c.same, closes-append n cs (close_box v.next ∷ []));
      grows = omega (arith, c.grows);
      new_from =
          λ e. ground (arith, c.new_from, c.grows, closes-append n cs (close_box v.next ∷ []));
      new_to = λ e. ground (arith, c.new_to, closes-append n cs (close_box v.next ∷ []));
    })
  ]

  full-EnvPost :
      (cs : List Cleanup) (v : World) (r : Option (List ℕ) × World)
      → Covers n w cs v
      → FullPost n v r
      → EnvPost n w (prepare_full req box cs r)
  unfolding closes
  full-EnvPost cs v (none, u) c p = ground (arith, unwind_live n cs u, c.same, c.new_from, p.0)
  full-EnvPost cs v (some hs, u) c p = box-EnvPost (cs ++ (close_instances hs ∷ [])) u (record {
    same = ground (arith, c.same, p.same, closes-append n cs (close_instances hs ∷ []));
    grows = omega (arith, c.grows, p.grows);
    new_from = λ e.
        ground
          (arith, c.new_from, c.grows, p.new_from, closes-append n cs (close_instances hs ∷ []));
    new_to = λ e.
        ground (arith, c.new_to, p.new_to, p.grows, closes-append n cs (close_instances hs ∷ []));
  })

  full_later :
      (full : List Bringup) (cs : List Cleanup) (v : World)
      → Covers n w cs v
      → EnvPost n w (prepare_full req box cs (start_xray_full_configs full v))
  full_later full cs v c = full-EnvPost cs v (start_xray_full_configs full v) c (
      start_xray_full_configs-FullPost n v full (λ e. ground (arith, c.same, c.new_to, c.grows, f)))

  sidecar-EnvPost :
      (full : List Bringup) (b : Bringup)
      → EnvPost n w (prepare_sidecar req full box (start_xray_instance b w))
  unfolding start_xray_instance unwind closes
  sidecar-EnvPost full create_fails = refl
  sidecar-EnvPost full prepare_fails = ground arith
  sidecar-EnvPost full start_fails = ground arith
  sidecar-EnvPost full succeeds = full_later full (close_instance w.next ∷ []) (begin w) (record {
    same = ground arith;
    grows = omega arith;
    new_from = λ e. ground arith;
    new_to = λ e. ground arith;
  })

-- For every request and every outcome of the calls, where no handle to come is live: a
-- prepareTestEnv that fails leaves what runs as it was, and after one that succeeds closing the
-- environment does.
pub prepare_test_env-EnvPost :
    (n : ℕ) (w : World) (req : TestRequest) (running : Option Running) (sidecar : Bringup)
    (full : List Bringup) (box : Option (List ℕ))
    → IsFresh n w
    → EnvPost n w (prepare_test_env req running sidecar full box w)
unfolding prepare_test_env unwind closes
prepare_test_env-EnvPost n w req running sidecar full box f = elim (Bool-cases req.current) [
  | inl c ↦ rw c (current_post running)
  | inr c ↦ elim (Bool-cases req.need_xray) [
    | inl x ↦ rw (c, x) (sidecar-EnvPost n w f req box full sidecar)
    | inr x ↦
        rw (c, x)
          (full_later n w f req box full [] w
            (record { same = refl; grows = omega arith; new_from = λ e. cc; new_to = λ e. cc }))
  ]
]
  where
    current_post : (r : Option Running) → EnvPost n w (current_env req r, w)
    current_post none = refl
    current_post (some r) = refl
