-- ===== src/Entry/Core/Served.antt =====
-- Which connection is served.
use nunya_core.Common.{
  ℕ, zero, suc, ◌+◌, ◌<◌, ◌≡◌, ◌∙◌, refl, ap, true, false, Option, none, some, List, ◌==◌, codes,
  eq_text→eq, Bool-cases, inl, inr, arith, ==_iff,
}
use nunya_core.Entry.Parent.{
  Paths, trim_suffix, resolve_final_path, base, dir, check_self, check_parent, check_parent_process,
}
use nunya_core.Entry.Core.{
  Peer, Dialed, refused, dialed, Connected, failed, fatal, connected, check_pid, check_peer,
  connect_ipc, Outcome, no_socket, unexpected_parent, unexpected_peer, not_connected, serves,
  after_attempt, connect, is_empty, run_core,
}

-- The executable of the parent and the own one, with their links resolved: the parent's is named
-- Nunya and lies in the directory that the own one lies in.
pub record Beside (p : Paths) : Type 0 where
  pub link : List ℕ
  pub self : List ℕ
  pub parent_is : p.parent_exe ≡ some link
  pub self_is : p.executable ≡ some self
  pub same_dir :
      dir (resolve_final_path p (trim_suffix (codes " (deleted)") link))
      ≡ dir (resolve_final_path p self)
  pub named : base (resolve_final_path p (trim_suffix (codes " (deleted)") link)) ≡ codes "Nunya"

self-Beside :
    (p : Paths) (link : List ℕ) (o : Option (List ℕ))
    → p.parent_exe ≡ some link
    → p.executable ≡ o
    → check_self p (trim_suffix (codes " (deleted)") link) o ≡ true
    → Beside p
self-Beside p link none e f h = cc
self-Beside p link (some self) e f h = record {
  link = link;
  self = self;
  parent_is = e;
  self_is = f;
  same_dir = eq_text→eq _ _ (ground (arith, h));
  named = eq_text→eq _ _ (ground (arith, h));
}

parent-Beside :
    (p : Paths) (o : Option (List ℕ)) → p.parent_exe ≡ o → check_parent p o ≡ true → Beside p
parent-Beside p none e h = cc
parent-Beside p (some link) e h = self-Beside p link p.executable e refl h

-- No connection before that with the number `i`.
abbrev pub RefusedBefore : (ℕ → Dialed) → ℕ → ℕ → Type 0
RefusedBefore dial start zero = Unit
RefusedBefore dial start (suc n) = (dial start ≡ refused) × RefusedBefore dial (start + 1) n

-- The first connection, `n` attempts later, which `P` is about.
abbrev pub FirstDialed : (ℕ → Dialed) → ℕ → ℕ → (Peer → Type 0) → Type 0
FirstDialed dial start left P =
    (n : ℕ) × (p : Peer) × (n < left)
    × RefusedBefore dial start n
    × (dial (start + n) ≡ dialed p)
    × P p

abbrev pub ConnectPost : ℕ → (ℕ → Dialed) → ℕ → ℕ → Outcome → Type 0
ConnectPost expected dial start left (serves conn) =
    FirstDialed dial start left
      (λ p. (p.conn ≡ conn) × (p.is_unix ≡ true) × (p.pid ≡ some expected))
ConnectPost expected dial start left unexpected_peer =
    FirstDialed dial start left (λ p. check_peer expected p ≡ fatal)
ConnectPost expected dial start left not_connected = RefusedBefore dial start left
ConnectPost expected dial start left _ = ⊥

abbrev PeerPost : ℕ → Peer → Connected → Type 0
PeerPost expected p failed = ⊥
PeerPost expected p fatal = check_peer expected p ≡ fatal
PeerPost expected p (connected conn) =
    (p.conn ≡ conn) × (p.is_unix ≡ true) × (p.pid ≡ some expected)

module _ (expected : ℕ) where
  pid-PeerPost :
      (p : Peer) (o : Option ℕ)
      → p.is_unix ≡ true
      → p.pid ≡ o
      → check_peer expected p ≡ check_pid expected p.conn o
      → PeerPost expected p (check_pid expected p.conn o)
  pid-PeerPost p none u e q = q
  pid-PeerPost p (some pid) u e q = elim (Bool-cases (pid == expected)) [
    | inl m ↦ rw m (refl, u, e ∙ ap some ((==_iff pid expected).0 m))
    | inr m ↦ rw m (q ∙ rw m refl)
  ]

  peer-PeerPost : (p : Peer) → PeerPost expected p (check_peer expected p)
  peer-PeerPost p = elim (Bool-cases p.is_unix) [
    | inr u ↦ simp u (ground (arith, u))
    | inl u ↦ elim (Bool-cases p.has_raw_conn) [
      | inr r ↦ simp (u, r) (ground (arith, u, r))
      | inl r ↦ elim (Bool-cases p.controls) [
        | inr c ↦ simp (u, r, c) (ground (arith, u, r, c))
        | inl c ↦ simp (u, r, c) (pid-PeerPost p p.pid u refl (ground (arith, u, r, c)))
      ]
    ]
  ]

  module _ (dial : ℕ → Dialed) where
    later-ConnectPost :
        (start left : ℕ) (o : Outcome)
        → dial start ≡ refused
        → ConnectPost expected dial (start + 1) left o
        → ConnectPost expected dial start (suc left) o
    later-ConnectPost start left (serves conn) e (n, p, l, b, d, q) =
        (suc n, p, omega arith, (e, b), ap dial (omega arith) ∙ d, q)
    later-ConnectPost start left unexpected_peer e (n, p, l, b, d, q) =
        (suc n, p, omega arith, (e, b), ap dial (omega arith) ∙ d, q)
    later-ConnectPost start left not_connected e b = (e, b)
    later-ConnectPost start left no_socket e b = b
    later-ConnectPost start left unexpected_parent e b = b

    now-ConnectPost :
        (start left : ℕ) (p : Peer) (c : Connected) (rest : Outcome)
        → dial start ≡ dialed p
        → PeerPost expected p c
        → ConnectPost expected dial start (suc left) (after_attempt c rest)
    now-ConnectPost start left p failed rest e q = absurd q
    now-ConnectPost start left p fatal rest e q =
        (0, p, omega arith, tt, ap dial (omega arith) ∙ e, q)
    now-ConnectPost start left p (connected conn) rest e q =
        (0, p, omega arith, tt, ap dial (omega arith) ∙ e, q)

    dialed-ConnectPost :
        (start left : ℕ) (d : Dialed) (rest : Outcome)
        → dial start ≡ d
        → ConnectPost expected dial (start + 1) left rest
        → ConnectPost expected dial start (suc left) (after_attempt (connect_ipc expected d) rest)
    dialed-ConnectPost start left refused rest e h = later-ConnectPost start left rest e h
    dialed-ConnectPost start left (dialed p) rest e h =
        now-ConnectPost start left p (check_peer expected p) rest e (peer-PeerPost p)

    connect-ConnectPost :
        (left start : ℕ) → ConnectPost expected dial start left (connect expected dial left start)
    unfolding connect
    connect-ConnectPost zero start = tt
    connect-ConnectPost (suc left) start =
        dialed-ConnectPost start left (dial start) (connect expected dial left (start + 1)) refl
          (connect-ConnectPost left (start + 1))

abbrev pub CorePost : List ℕ → Paths → ℕ → (ℕ → Dialed) → Outcome → Type 0
CorePost name paths expected dial no_socket = is_empty name ≡ true
CorePost name paths expected dial unexpected_parent = check_parent_process paths ≡ false
CorePost name paths expected dial outcome =
    (is_empty name ≡ false) × Beside paths × ConnectPost expected dial 0 10 outcome

connected-CorePost :
    (name : List ℕ) (paths : Paths) (expected : ℕ) (dial : ℕ → Dialed) (o : Outcome)
    → is_empty name ≡ false
    → Beside paths
    → ConnectPost expected dial 0 10 o
    → CorePost name paths expected dial o
connected-CorePost name paths expected dial no_socket e b c = absurd c
connected-CorePost name paths expected dial unexpected_parent e b c = absurd c
connected-CorePost name paths expected dial unexpected_peer e b c = (e, b, c)
connected-CorePost name paths expected dial not_connected e b c = (e, b, c)
connected-CorePost name paths expected dial (serves conn) e b c = (e, b, c)

-- RunCore, whatever the system answers: it serves a connection only if the name of the socket is set
-- and the parent's executable, with its links resolved, is named Nunya and lies in the directory of
-- the own one. That is the first connection made in ten attempts, it is a Unix connection, and the
-- process at its other end is the parent. It ends for a peer where a check of that first connection
-- failed, and for want of a connection only after ten attempts without any.
pub run_core-CorePost :
    (name : List ℕ) (paths : Paths) (expected : ℕ) (dial : ℕ → Dialed)
    → CorePost name paths expected dial (run_core name paths expected dial)
unfolding run_core
run_core-CorePost name paths expected dial = elim (Bool-cases (is_empty name)) [
  | inl e ↦ rw (e, CorePost) e
  | inr e ↦ elim (Bool-cases (check_parent_process paths)) [
    | inl c ↦
        rw (e, c)
          (connected-CorePost name paths expected dial _ e
            (parent-Beside paths paths.parent_exe refl (unfold check_parent_process in c))
            (connect-ConnectPost expected dial 10 0))
    | inr c ↦ rw (e, c, CorePost) c
  ]
]
