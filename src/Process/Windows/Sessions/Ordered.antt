-- ===== src/Process/Windows/Sessions/Ordered.antt =====
-- Which sessions are candidates, and which shells.
use nunya_core.Common.{
  ℕ, ◌≡◌, ◌∙◌, refl, sym, ap, Bool, true, false, not, ◌&&◌, ◌||◌, Option, none, some, List, [], ◌∷◌,
  ◌++◌, ◌==◌, contains, contains-append, are_distinct, distinct-append, is_handle, Option-cases,
  Bool-cases, inl, inr, arith, ==_iff,
}
use nunya_core.Process.Windows.Handles.{Api}
use nunya_core.Process.Windows.Sessions.{
  add, add_all, add_own, active_sessions, candidate_sessions, in_session, nearest_first,
  shell_candidates,
}

-- Neither services nor none.
abbrev pub is_usable : ℕ → Bool
is_usable id = not (id == 0 || id == 4294967295)

contains-add :
    (out : List ℕ) (id s : ℕ) → contains (add out id) s ≡ (contains out s || id == s && is_usable s)
unfolding add contains
contains-add out id s = ground (arith, contains-append out (id ∷ []) s, ==_iff id s)

distinct-add : (out : List ℕ) (id : ℕ) → are_distinct out ≡ true → are_distinct (add out id) ≡ true
unfolding add
distinct-add out id d = ground (arith, distinct-append out id d)

contains-add_all :
    (out ids : List ℕ) (s : ℕ)
    → contains (add_all out ids) s ≡ (contains out s || contains ids s && is_usable s)
unfolding add_all contains
contains-add_all out [] s = ground arith
contains-add_all out (id ∷ ids) s =
    ground (arith, contains-add_all (add out id) ids s, contains-add out id s)

distinct-add_all :
    (out ids : List ℕ) → are_distinct out ≡ true → are_distinct (add_all out ids) ≡ true
unfolding add_all
distinct-add_all out [] d = d
distinct-add_all out (id ∷ ids) d = distinct-add_all (add out id) ids (distinct-add out id d)

contains-add_own :
    (own : Option ℕ) (s : ℕ) → contains (add_own own) s ≡ (is_handle s own && is_usable s)
unfolding contains
contains-add_own none s = refl
contains-add_own (some id) s = ground (arith, contains-add [] id s, ==_iff id s)

distinct-add_own : (own : Option ℕ) → are_distinct (add_own own) ≡ true
unfolding are_distinct
distinct-add_own none = refl
distinct-add_own (some id) = distinct-add [] id refl

-- Whether the session is among the preferred ones.
abbrev pub lies_in : List ℕ → Option ℕ → Bool
lies_in prefer none = false
lies_in prefer (some id) = contains prefer id

same_session :
    (session_of : ℕ → Option ℕ) (want pid p : ℕ)
    → (pid == p) ≡ true
    → is_handle want (session_of pid) ≡ is_handle want (session_of p)
same_session session_of want pid p e =
    ap (λ (n : ℕ). is_handle want (session_of n)) ((==_iff pid p).0 e)

contains-in_session :
    (session_of : ℕ → Option ℕ) (want : ℕ) (pids : List ℕ) (p : ℕ)
    → contains (in_session session_of want pids) p
      ≡ (contains pids p && is_handle want (session_of p))
unfolding in_session contains
contains-in_session session_of want [] p = refl
contains-in_session session_of want (pid ∷ pids) p =
    ground (arith, contains-in_session session_of want pids p, same_session session_of want pid p)

lies_in-cons :
    (want : ℕ) (prefer : List ℕ) (session : Option ℕ)
    → lies_in (want ∷ prefer) session ≡ (is_handle want session || lies_in prefer session)
unfolding contains
lies_in-cons want prefer none = refl
lies_in-cons want prefer (some id) = refl

contains-nearest_first :
    (session_of : ℕ → Option ℕ) (pids prefer : List ℕ) (p : ℕ)
    → contains (nearest_first session_of pids prefer) p
      ≡ (contains pids p && lies_in prefer (session_of p))
unfolding nearest_first contains
contains-nearest_first session_of pids [] p = ground (arith, Option-cases (session_of p))
contains-nearest_first session_of pids (want ∷ prefer) p =
    contains-append (in_session session_of want pids) (nearest_first session_of pids prefer) p
    ∙ ground (
      arith,
      contains-in_session session_of want pids p,
      contains-nearest_first session_of pids prefer p,
      lies_in-cons want prefer (session_of p),
    )

abbrev pub is_nil : List ℕ → Bool
is_nil [] = true
is_nil (x ∷ xs) = false

contains-shells :
    (session_of : ℕ → Option ℕ) (pids prefer : List ℕ) (p : ℕ)
    → contains (shell_candidates session_of pids prefer) p
      ≡ (contains pids p && (is_nil prefer || lies_in prefer (session_of p)))
unfolding shell_candidates
contains-shells session_of pids [] p = ground arith
contains-shells session_of pids (want ∷ prefer) p =
    contains-nearest_first session_of pids (want ∷ prefer) p

abbrev pub begins : ℕ → List ℕ → Bool
begins s [] = false
begins s (x ∷ xs) = s == x

begins-append : (s : ℕ) (xs ys : List ℕ) → begins s xs ≡ true → begins s (xs ++ ys) ≡ true
begins-append s [] ys b = cc
begins-append s (x ∷ xs) ys b = b

begins-add : (s : ℕ) (xs : List ℕ) (id : ℕ) → begins s xs ≡ true → begins s (add xs id) ≡ true
unfolding add
begins-add s xs id b = ground (arith, begins-append s xs (id ∷ []))

begins-add_all : (s : ℕ) (xs ids : List ℕ) → begins s xs ≡ true → begins s (add_all xs ids) ≡ true
unfolding add_all
begins-add_all s xs [] b = b
begins-add_all s xs (id ∷ ids) b = begins-add_all s (add xs id) ids (begins-add s xs id b)

contains-begins : (s : ℕ) (xs : List ℕ) → begins s xs ≡ true → contains xs s ≡ true
unfolding contains
contains-begins s [] b = cc
contains-begins s (x ∷ xs) b = ground arith

begins-add_own :
    (own : Option ℕ) (s : ℕ)
    → is_handle s own ≡ true
    → is_usable s ≡ true
    → begins s (add_own own) ≡ true
unfolding add contains
begins-add_own none s h u = cc
begins-add_own (some id) s h u = ground (arith, ==_iff s id)

module _ (api : Api) (s : ℕ) where
  contains-candidates : contains (candidate_sessions api) s ≡ (
      (is_handle s api.own_session
        || api.console_session == s
        || contains (active_sessions api.sessions) s)
      && is_usable s)
  unfolding candidate_sessions
  contains-candidates = ground (
    arith,
    contains-add_all (add (add_own api.own_session) api.console_session)
        (active_sessions api.sessions) s,
    contains-add (add_own api.own_session) api.console_session s,
    contains-add_own api.own_session s,
  )

  begins-candidates :
      (is_handle s api.own_session && is_usable s)
      ≡ (is_handle s api.own_session && begins s (candidate_sessions api))
  begins-candidates = elim (Bool-cases (is_handle s api.own_session)) [
    | inl h ↦ elim (Bool-cases (is_usable s)) [
      | inl u ↦
          rw (h, u)
            (sym (
              unfold candidate_sessions in
              begins-add_all s _ _
                (begins-add s _ api.console_session (begins-add_own api.own_session s h u))))
      | inr u ↦ ground (arith, contains-candidates, contains-begins s (candidate_sessions api))
    ]
    | inr h ↦ rw h refl
  ]

-- For every answer of Windows: candidateSessions names each session once, and those exactly that
-- are the process's own, the console's or an active one, but neither 0 nor 0xFFFFFFFF. The process's
-- own session, where it is known, is the first exactly if it is neither. Of the given processes,
-- shellCandidates keeps those that are in a candidate session, or all if there is no candidate.
pub candidate_sessions_exact :
    (api : Api) (s p : ℕ) (pids : List ℕ)
    → (are_distinct (candidate_sessions api) ≡ true)
      × (contains (candidate_sessions api) s ≡ (
          (is_handle s api.own_session
            || api.console_session == s
            || contains (active_sessions api.sessions) s)
          && is_usable s))
      × ((is_handle s api.own_session && is_usable s)
          ≡ (is_handle s api.own_session && begins s (candidate_sessions api)))
      × (contains (shell_candidates api.session_of pids (candidate_sessions api)) p ≡ (
          contains pids p
          && (is_nil (candidate_sessions api)
              || lies_in (candidate_sessions api) (api.session_of p))))
candidate_sessions_exact api s p pids = (
  unfold candidate_sessions in
      distinct-add_all _ _ (distinct-add _ api.console_session (distinct-add_own api.own_session)),
  contains-candidates api s,
  begins-candidates api s,
  contains-shells api.session_of pids (candidate_sessions api) p,
)
