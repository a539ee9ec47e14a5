-- ===== src/Xray/Startup/Opened.antt =====
-- What has been started, by its handles, and that closing it undoes the start.
use nunya_core.Common.{
  ℕ, ◌≡◌, ◌≤◌, ◌<◌, true, ◌||◌, Option, none, some, List, [], ◌∷◌, ◌++◌, contains, contains-append,
  arith,
}
use nunya_core.Xray.Gate.{Bringup, create_fails, prepare_fails, start_fails, succeeds}
use nunya_core.Xray.Startup.{World, begin, start_full_loop, start_xray_full_configs}

-- At the handle `n`: of `w`, exactly the handles `hs` have been added in `v`.
pub record Opened (n : ℕ) (w : World) (hs : List ℕ) (v : World) : Type 0 where
  pub same : v.live n ≡ (contains hs n || w.live n)
  pub grows : w.next ≤ v.next
  pub new_from : contains hs n ≡ true → w.next ≤ n
  pub new_to : contains hs n ≡ true → n < v.next

-- No handle to come is live.
abbrev pub IsFresh : ℕ → World → Type 0
IsFresh n w = w.live n ≡ true → n < w.next

abbrev pub FullPost : ℕ → World → Option (List ℕ) × World → Type 0
FullPost n w (none, v) = (v.live n ≡ w.live n) × (w.next ≤ v.next)
FullPost n w (some hs, v) = Opened n w hs v

loop-FullPost :
    (n : ℕ) (w : World) (bs : List Bringup) (is : List ℕ) (v : World)
    → IsFresh n w
    → Opened n w is v
    → FullPost n w (start_full_loop bs is v)
unfolding start_full_loop contains
loop-FullPost n w [] is v f o = o
loop-FullPost n w (create_fails ∷ bs) is v f o = ground arith
loop-FullPost n w (prepare_fails ∷ bs) is v f o = ground arith
loop-FullPost n w (start_fails ∷ bs) is v f o = ground arith
loop-FullPost n w (succeeds ∷ bs) is v f o =
    loop-FullPost n w bs (is ++ (v.next ∷ [])) (begin v) f (record {
      same = ground (arith, o.same, contains-append is (v.next ∷ []) n);
      grows = omega (arith, o.grows);
      new_from = λ c. ground (arith, o.new_from, o.grows, contains-append is (v.next ∷ []) n);
      new_to = λ c. ground (arith, o.new_to, contains-append is (v.next ∷ []) n);
    })

-- startXrayFullConfigs either adds exactly the instances that it returns, or leaves what runs as it
-- was, at each handle.
pub start_xray_full_configs-FullPost :
    (n : ℕ) (w : World) (bs : List Bringup)
    → IsFresh n w
    → FullPost n w (start_xray_full_configs bs w)
unfolding start_xray_full_configs contains
start_xray_full_configs-FullPost n w bs f = loop-FullPost n w bs [] w f (ground arith)
