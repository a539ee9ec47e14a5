-- ===== src/Process/Windows/Start/Dropped.antt =====
-- On Windows no child is elevated, and no handle is left open but those of its runner.
use nunya_core.Common.{
  ℕ, ◌+◌, ◌<◌, ◌≡◌, ◌∙◌, refl, ap, subst, Bool, true, false, Option, none, some, List, [], ◌∷◌,
  contains, contains-append, are_distinct, append-nil, arith,
}
use nunya_core.Process.Windows.Handles.{
  Api, World, open_process_token, tick, close, closing, new_handle,
}
use nunya_core.Process.Windows.Handles.Leaves.{
  tick_after, Leaves, IsOld, same-Leaves, trans-Leaves, IsOld-Leaves, with_handle_eq, tick-Leaves,
  close-Leaves, nest, Obtained, TokenPost, Obtained-IsOld, Documented, is_elevated_eq,
  obtain-TokenPost,
}
use nunya_core.Process.Windows.Tokens.{token_of, unprivileged_token}
use nunya_core.Process.Windows.Tokens.Lowered.{unprivileged-TokenPost}
use nunya_core.Process.Windows.Start.{
  Running, close_all, new_pipe, all_files, with_child, with_texts, encoded, with_inherited,
  with_nul, with_err, with_out, with_path, start_with_token_w, run_cmd, or_as_user,
  start_with_token, with_token, with_self, from_self, start_child,
}
use nunya_core.Process.Windows.Start.Opened.{
  rev, close_all-Leaves, new_handle-Leaves, new_pipe-Leaves, Opened, inherited-Leaves,
}

abbrev pub RunPost : World → Option Running × World → Type 0
RunPost w (none, v) = Leaves [] w v
RunPost w (some run, v) =
    Leaves run.handles w v
    × (run.elevated ≡ false)
    × ((h : ℕ) → h < w.next → contains run.handles h ≡ false)

abbrev four : ℕ → List ℕ
four n = (n + 3) ∷ (n + 2) ∷ (n + 1) ∷ n ∷ []

abbrev five : ℕ → List ℕ
five n = (n + 4) ∷ four n

module _ (n tok : ℕ) (w u : World) where
  child-RunPost :
      (made : Bool)
      → Opened n 5 (five n) w u
      → u.elevated tok ≡ false
      → RunPost w (with_child n tok made u)
  unfolding close_all contains are_distinct rev
  child-RunPost false a e = close_all-Leaves (n ∷ (n + 2) ∷ []) (ground arith) (
      close-Leaves [] ((n + 2) ∷ n ∷ []) (n + 4) refl (
        close-Leaves ((n + 4) ∷ []) ((n + 2) ∷ n ∷ []) (n + 3) (ground arith) (
          close-Leaves ((n + 4) ∷ (n + 3) ∷ (n + 2) ∷ []) (n ∷ []) (n + 1) (ground arith)
            (tick_after a.leaves))))
  child-RunPost true a e = (
    close-Leaves [] ((n + 5) ∷ (n + 2) ∷ n ∷ []) (n + 6) refl (
        close-Leaves ((n + 6) ∷ (n + 5) ∷ []) ((n + 2) ∷ n ∷ []) (n + 4) (ground arith) (
          close-Leaves ((n + 6) ∷ (n + 5) ∷ (n + 4) ∷ []) ((n + 2) ∷ n ∷ []) (n + 3) (ground arith)
            (close-Leaves ((n + 6) ∷ (n + 5) ∷ (n + 4) ∷ (n + 3) ∷ (n + 2) ∷ []) (n ∷ []) (n + 1)
              (ground arith)
              (new_handle-Leaves false (n + 6) _ (omega (arith, a.next))
                (new_handle-Leaves false (n + 5) _ a.next a.leaves))))),
    e,
    λ h l. ground (arith, a.start),
  )

still_open :
    {xs : List ℕ} {w u : World} (tok : ℕ)
    → Leaves xs w u
    → contains w.handles tok ≡ true
    → contains u.handles tok ≡ true
still_open {xs} {w} tok a o =
    ap (λ (l : List ℕ). contains l tok) a.handles ∙ ground (arith, contains-append xs w.handles tok)

module _ (api : Api) (environ : List (List ℕ)) (tok : ℕ) (w : World) (old : IsOld tok w)
    (low : w.elevated tok ≡ false) where
  texts-RunPost :
      (n : ℕ) (u : World) (encodes : Bool)
      → Opened n 5 (five n) w u
      → RunPost w (with_texts api n tok encodes u)
  unfolding are_distinct contains rev
  texts-RunPost n u false a = close_all-Leaves (all_files n) (ground arith) a.leaves
  texts-RunPost n u true a =
      rw (with_handle_eq tok u (still_open tok a.leaves old.open_))
        (child-RunPost n tok w u _ a (a.leaves.kept tok old.below ∙ low))

  inherited-RunPost :
      (n : ℕ) (r : Bool × World)
      → Opened n 5 (five n) w r.1
      → RunPost w (with_inherited api environ n tok r)
  unfolding are_distinct contains rev
  inherited-RunPost n (false, u) a = close_all-Leaves (all_files n) (ground arith) a.leaves
  inherited-RunPost n (true, u) a =
      texts-RunPost n (tick (tick u)) (encoded api environ u)
        (record { leaves = tick_after (tick_after a.leaves); start = a.start; next = a.next })

  nul-RunPost :
      (n : ℕ) (u : World) (opens : Bool)
      → Opened n 4 (four n) w u
      → RunPost w (with_nul api environ n tok opens u)
  unfolding are_distinct contains rev
  nul-RunPost n u false a =
      close_all-Leaves (n ∷ (n + 1) ∷ (n + 2) ∷ (n + 3) ∷ []) (ground arith) (tick_after a.leaves)
  nul-RunPost n u true a =
      let b : Leaves (five n) w (new_handle false u) =
        new_handle-Leaves false (n + 4) (four n) a.next a.leaves in
      let c =
        inherited-Leaves api ((n + 1) ∷ (n + 3) ∷ (n + 4) ∷ []) (new_handle false u) (
          ground (arith, b.handles),
          (ground (arith, b.handles), (ground (arith, b.handles), tt)),
        ) in
      inherited-RunPost n _
        (record { leaves = nest b c.0; start = a.start; next = omega (arith, c.1, a.next) })

  err-RunPost :
      (n : ℕ) (u : World) (made : Bool)
      → Opened n 2 ((n + 1) ∷ n ∷ []) w u
      → RunPost w (with_err api environ n tok made u)
  unfolding are_distinct contains rev
  err-RunPost n u false a = close_all-Leaves (n ∷ (n + 1) ∷ []) (ground arith) (tick_after a.leaves)
  err-RunPost n u true a = nul-RunPost n (new_pipe u) _ (record {
    leaves =
        subst (λ (m : ℕ). Leaves (m ∷ (n + 2) ∷ (n + 1) ∷ n ∷ []) w (new_pipe u)) (omega arith)
          (new_pipe-Leaves (n + 2) ((n + 1) ∷ n ∷ []) a.next a.leaves);
    start = a.start;
    next = omega (arith, a.next);
  })

  out-RunPost :
      (u : World) (made : Bool) → Leaves [] w u → RunPost w (with_out api environ tok made u)
  out-RunPost u false a = tick_after a
  out-RunPost u true a =
      err-RunPost u.next (new_pipe u) _
        (record { leaves = new_pipe-Leaves u.next [] refl a; start = a.later; next = omega arith })

  path-RunPost :
      (u : World) (found : Bool) → Leaves [] w u → RunPost w (with_path api environ tok found u)
  path-RunPost u false a = tick_after a
  path-RunPost u true a = out-RunPost (tick u) _ (tick_after a)

  start_with_token_w-RunPost : RunPost w (start_with_token_w api environ tok w)
  unfolding start_with_token_w
  start_with_token_w-RunPost = path-RunPost w _ (same-Leaves w)

  cmd-RunPost :
      (u : World) (e starts : Bool) → e ≡ false → Leaves [] w u → RunPost w (run_cmd starts e u)
  unfolding contains
  cmd-RunPost u e false q a = tick_after a
  cmd-RunPost u e true q a = (tick_after a, q, λ h l. refl)

  as_user-RunPost : (r : Option Running × World) → RunPost w r → RunPost w (or_as_user api tok r)
  as_user-RunPost (some run, u) a = a
  as_user-RunPost (none, u) a =
      rw (with_handle_eq tok u (still_open tok a old.open_))
        (cmd-RunPost u (u.elevated tok) _ (a.kept tok old.below ∙ low) a)

  start_with_token-RunPost : RunPost w (start_with_token api environ tok w)
  unfolding start_with_token
  start_with_token-RunPost = as_user-RunPost _ start_with_token_w-RunPost

-- The token is closed below what the runner keeps.
closed-RunPost :
    (down : Bool) (h : ℕ) (w u : World) (r : Option Running × World)
    → Obtained down w h u
    → RunPost u r
    → RunPost w (closing h r)
unfolding contains
closed-RunPost down h w u (none, v) a b = close-Leaves [] [] h refl (nest a.leaves b)
closed-RunPost down h w u (some run, v) a b = (
  subst (λ (l : List ℕ). Leaves l w (close h v)) (append-nil run.handles)
      (close-Leaves run.handles [] h (b.2 h a.below) (nest a.leaves b.0)),
  b.1,
  λ g l. b.2 g (omega (arith, a.leaves.later)),
)

trans-RunPost :
    (w u : World) (r : Option Running × World) → Leaves [] w u → RunPost u r → RunPost w r
trans-RunPost w u (none, v) a b = trans-Leaves a b
trans-RunPost w u (some run, v) a b =
    (trans-Leaves a b.0, b.1, λ g l. b.2 g (omega (arith, a.later)))

module _ (api : Api) (doc : Documented api) (environ : List (List ℕ)) where
  token-RunPost :
      (w : World) (r : Option ℕ × World) → TokenPost true w r → RunPost w (with_token api environ r)
  token-RunPost w (none, v) a = a
  token-RunPost w (some tok, u) a =
      closed-RunPost true tok w u _ a
        (start_with_token-RunPost api environ tok u (Obtained-IsOld a) (a.lowered refl))

  elevated-RunPost :
      (self : ℕ) (w : World) (e : Bool)
      → IsOld self w
      → w.elevated self ≡ e
      → RunPost w (with_self api environ self (e, tick w))
  elevated-RunPost self w false o q = trans-RunPost w (tick w) _ (tick-Leaves w) (
      cmd-RunPost api environ self (tick w) (IsOld-Leaves (tick-Leaves w) o) q (tick w)
        (w.elevated self) _ q (same-Leaves (tick w)))
  elevated-RunPost self w true o q = trans-RunPost w (tick w) _ (tick-Leaves w) (
      token-RunPost (tick w) (unprivileged_token api self (tick w))
        (unprivileged-TokenPost api doc self (tick w) (IsOld-Leaves (tick-Leaves w) o)))

  self-RunPost :
      (w : World) (r : Option ℕ × World) → TokenPost false w r → RunPost w (from_self api environ r)
  self-RunPost w (none, v) a = a
  self-RunPost w (some self, u) a = closed-RunPost false self w u _ a (
      rw (is_elevated_eq api doc self u (Obtained-IsOld a))
        (elevated-RunPost self u (u.elevated self) (Obtained-IsOld a) refl))

  -- For every environment and whatever Windows answers, where it answers the query for the elevation
  -- of an open token and a duplicate is as elevated as its source: a child that startChild starts on
  -- Windows is not elevated, also where the process is. Afterwards the open handles are those from
  -- before and, if a child was started, those that its runner keeps; and no call was made with a
  -- handle that was closed.
  pub start_child-RunPost : (w : World) → RunPost w (start_child api environ w)
  unfolding start_child token_of
  start_child-RunPost w =
      self-RunPost w (token_of api open_process_token w) (obtain-TokenPost _ _ false w (λ d. cc))
