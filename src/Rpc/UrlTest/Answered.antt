-- ===== src/Rpc/UrlTest/Answered.antt =====
-- What Test answers, and that it leaves nothing running.
use nunya_core.Common.{
  ℕ, ◌≡◌, refl, sym, ap, ◌∙◌, Bool, true, false, Option, none, some, List, [], ◌∷◌, if◌then◌else◌,
  eq_text, eq_text→eq, count_text, map, arith, Bool-cases, inl, inr,
}
use nunya_core.Xray.Gate.{Bringup}
use nunya_core.Xray.Startup.{World}
use nunya_core.Xray.Startup.Opened.{IsFresh}
use nunya_core.Probe.UrlTest.{UrlTestResult, error_string, latency_ms}
use nunya_core.Rpc.TestEnv.{TestRequest, Running, TestEnv, current_env, prepare_test_env}
use nunya_core.Rpc.TestEnv.Undone.{EnvPost, prepare_test_env-EnvPost}
use nunya_core.Rpc.UrlTest.{
  Entry, entry_of, push, entries_of, is_failure, failed, pending_tags, Reply, fails, replies,
  not_running_entry, not_running, ask_status, reply_of, test_env, test,
}

-- The entries are those of the results, each under its tag.
pub record EntriesPost (tags : List (List ℕ)) (results : List UrlTestResult) (entries : List Entry)
    : Type 0 where
  tagged : map (λ (e : Entry). e.outbound_tag) entries ≡ tags
  timed :
      map (λ (e : Entry). e.latency) entries
      ≡ map (λ (x : UrlTestResult). latency_ms x.duration) results
  explained :
      map (λ (e : Entry). e.error) entries
      ≡ map (λ (x : UrlTestResult). error_string x.error) results

entries_of-EntriesPost :
    (tags : List (List ℕ)) (results : List UrlTestResult)
    → map (λ (x : UrlTestResult). x.tag) results ≡ tags
    → (entries : List Entry) × (entries_of tags results ≡ some entries)
      × EntriesPost tags results entries
unfolding entries_of
entries_of-EntriesPost [] [] e =
    ([], refl, record { tagged = refl; timed = refl; explained = refl })
entries_of-EntriesPost [] (x ∷ results) e = cc
entries_of-EntriesPost (t ∷ tags) [] e = cc
entries_of-EntriesPost (t ∷ tags) (x ∷ results) e =
    let (entries, g, p) = entries_of-EntriesPost tags results (tail_eq e) in
    (
      entry_of t x ∷ entries,
      ap (push (entry_of t x)) g,
      record {
        tagged = ap (◌∷◌ t) p.tagged;
        timed = ap (◌∷◌ (latency_ms x.duration)) p.timed;
        explained = ap (◌∷◌ (error_string x.error)) p.explained;
      },
    )
  where
    tail_of : List (List ℕ) → List (List ℕ)
    tail_of [] = []
    tail_of (y ∷ ys) = ys

    tail_eq :
        map (λ (y : UrlTestResult). y.tag) (x ∷ results) ≡ t ∷ tags
        → map (λ (y : UrlTestResult). y.tag) results ≡ tags
    tail_eq h = ap tail_of h

abbrev pub or_this : Option Bool → Bool → Bool → Option Bool
or_this (some b) same now = some b
or_this none same now = if same then some now else none

-- Whether the last entry of the tag, if there is one, has an error.
unfoldable pub last_failed : List ℕ → List Entry → Option Bool
last_failed tag [] = none
last_failed tag (e ∷ entries) =
    or_this (last_failed tag entries) (eq_text e.outbound_tag tag) (is_failure e)

abbrev pub or_not : Bool → Option Bool → Bool
or_not b none = b
or_not b (some c) = c

failed_last :
    (tag : List ℕ) (entries : List Entry) (before : Bool)
    → failed entries before tag ≡ or_not before (last_failed tag entries)
unfolding failed last_failed
failed_last tag [] before = refl
failed_last tag (e ∷ entries) before =
    ground
      (arith, failed_last tag entries (if eq_text e.outbound_tag tag then is_failure e else before))

-- The tags whose status is asked for.
pending_count :
    (entries : List Entry) (tags : List (List ℕ)) (t : List ℕ)
    → count_text t (pending_tags entries tags)
      ≡ (if or_not false (last_failed t entries) then count_text t tags else 0)
unfolding pending_tags count_text
pending_count entries [] t = ground arith
pending_count entries (tag ∷ tags) t = elim (Bool-cases (eq_text tag t)) [
  | inl e ↦ ground (
    arith,
    pending_count entries tags t,
    failed_last tag entries false,
    ap (λ (x : List ℕ). last_failed x entries) (eq_text→eq tag t e),
  )
  | inr e ↦ ground (arith, pending_count entries tags t)
]

module _ {S : Type 0} (batch : List (List ℕ) → List UrlTestResult) (collect : List (List ℕ) → S)
    (n : ℕ) (vpn_tags : List (List ℕ)) (t : List ℕ) (req : TestRequest) (w : World) where
  abbrev pub TestPost : Option TestEnv × World → Reply S × World → Type 0
  TestPost (none, v) r =
      (r.1.live n ≡ w.live n)
      × (req.current ≡ true → r.0 ≡ replies (not_running_entry ∷ []) none)
      × (req.current ≡ false → r.0 ≡ fails)
  TestPost (some env, v) r =
      (r.1.live n ≡ w.live n)
      × ((entries : List Entry) × (pending : List (List ℕ)) × (r.0
            ≡ replies entries (ask_status batch collect pending))
          × EntriesPost env.tags (batch env.tags) entries
          × (count_text t pending
              ≡ (if or_not false (last_failed t entries) then count_text t vpn_tags else 0)))

  env-TestPost :
      (running : Option Running) (m : Option TestEnv × World)
      → ((tags : List (List ℕ)) → map (λ (x : UrlTestResult). x.tag) (batch tags) ≡ tags)
      → EnvPost n w m
      → (m.0 ≡ none → req.current ≡ true → not_running running ≡ true)
      → TestPost m (test_env batch collect vpn_tags req running m)
  env-TestPost running (none, v) each p k = (p, λ c. rw (c, k refl c) refl, λ c. rw c refl)
  env-TestPost running (some env, v) each p k =
      let (entries, g, e) = entries_of-EntriesPost env.tags (batch env.tags) (each env.tags) in
      (
        p,
        (
          entries,
          pending_tags entries vpn_tags,
          ap (reply_of batch collect vpn_tags) g,
          e,
          pending_count entries vpn_tags t,
        ),
      )

current_none :
    (req : TestRequest) (running : Option Running)
    → current_env req running ≡ none
    → not_running running ≡ true
current_none req none e = refl
current_none req (some r) e = cc

pub is_running :
    (req : TestRequest) (running : Option Running) (sidecar : Bringup) (full : List Bringup)
    (box : Option (List ℕ)) (w : World)
    → (prepare_test_env req running sidecar full box w).0 ≡ none
    → req.current ≡ true
    → not_running running ≡ true
unfolding prepare_test_env
is_running req running sidecar full box w e c =
    let s : (prepare_test_env req running sidecar full box w).0 ≡ current_env req running =
      simp c refl in
    current_none req running (sym s ∙ e)

-- Where the batch gives one result for each tag in order and no handle to come is live: a Test whose
-- environment cannot be prepared answers an entry that says so where the running instance was asked
-- for, and an error otherwise; any other answers, without a panic, one entry for each tag of the
-- environment, in order, with the time and the error of its result, and asks for the status of exactly
-- those VPN tags of the request, as often as they are there, whose last entry has an error, if there
-- are any. Afterwards what runs is as it was before.
pub test-TestPost :
    {S : Type 0} (batch : List (List ℕ) → List UrlTestResult) (collect : List (List ℕ) → S) (n : ℕ)
    (vpn_tags : List (List ℕ)) (t : List ℕ) (req : TestRequest) (running : Option Running)
    (sidecar : Bringup) (full : List Bringup) (box : Option (List ℕ)) (w : World)
    → ((tags : List (List ℕ)) → map (λ (x : UrlTestResult). x.tag) (batch tags) ≡ tags)
    → IsFresh n w
    → TestPost batch collect n vpn_tags t req w
        (prepare_test_env req running sidecar full box w)
        (test batch collect vpn_tags req running sidecar full box w)
unfolding test
test-TestPost batch collect n vpn_tags t req running sidecar full box w each f =
    env-TestPost batch collect n vpn_tags t req w running
      (prepare_test_env req running sidecar full box w) each
      (prepare_test_env-EnvPost n w req running sidecar full box f)
      (is_running req running sidecar full box w)
