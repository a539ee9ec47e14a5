-- ===== src/Probe/Dialer.antt =====
-- internal/probe/probe.go: probeDialer, the dials of one probe and the closer, as a step relation.
-- One step is what a goroutine does under `access`, one call of `dial`, or one Close of a
-- connection. A connection is a handle, a number.
pub mod Released
use nunya_core.Common.{ℕ, ◌+◌, ◌≡◌, Bool, true, false, List, [], ◌∷◌, ◌++◌, if◌then◌else◌, ◌==◌}

-- Where a call of DialContext is.
pub data Phase : Type 0 where
  called dialing : Phase
  dialed : ℕ → Phase
  late : ℕ → Phase  -- the closer came first: the connection is the call's to close
  returned : ℕ → Phase
  refused : Phase

pub record Dialer : Type 0 where
  pub conns : List ℕ
  pub closed : Bool
  pub dials : List Phase
  pub closing : List ℕ  -- the goroutines of Close
  pub live : ℕ → Bool
  pub next : ℕ

abbrev pub fresh_dialer : Dialer
fresh_dialer = record {
  conns = [];
  closed = false;
  dials = [];
  closing = [];
  live = λ n. false;
  next = 0;
}

abbrev pub moved : List Phase → Phase → List Phase → Dialer → Dialer
moved front p back d = record d { dials = front ++ (p ∷ back) }

abbrev pub shut : ℕ → Dialer → Dialer
shut c d = record d { live = λ n. if n == c then false else d.live n }

-- The second locked part of DialContext.
abbrev pub admit : List Phase → ℕ → List Phase → Dialer → Dialer
admit front c back d =
    if d.closed
    then moved front (late c) back d
    else record (moved front (returned c) back d) { conns = d.conns ++ (c ∷ []) }

abbrev pub close_dialer : Dialer → Dialer
close_dialer d = record d { conns = []; closed = true; closing = d.closing ++ d.conns }

pub data Step (d : Dialer) : Dialer → Type 0 where
  dial_context : Step d (record d { dials = called ∷ d.dials })
  look :
      (front back : List Phase)
      → d.dials ≡ front ++ (called ∷ back)
      → Step d (moved front (if d.closed then refused else dialing) back d)
  dial_fails :
      (front back : List Phase)
      → d.dials ≡ front ++ (dialing ∷ back)
      → Step d (moved front refused back d)
  dial_succeeds :
      (front back : List Phase)
      → d.dials ≡ front ++ (dialing ∷ back)
      → Step d (record (moved front (dialed d.next) back d) {
        live = λ n. if n == d.next then true else d.live n;
        next = d.next + 1;
      })
  look_again :
      (front : List Phase) (c : ℕ) (back : List Phase)
      → d.dials ≡ front ++ (dialed c ∷ back)
      → Step d (admit front c back d)
  drop_late :
      (front : List Phase) (c : ℕ) (back : List Phase)
      → d.dials ≡ front ++ (late c ∷ back)
      → Step d (shut c (moved front refused back d))
  close : Step d (close_dialer d)
  close_conn :
      (front : List ℕ) (c : ℕ) (back : List ℕ)
      → d.closing ≡ front ++ (c ∷ back)
      → Step d (shut c (record d { closing = front ++ back }))

pub data Reach : Dialer → Type 0 where
  new : Reach fresh_dialer
  more : {d e : Dialer} → Reach d → Step d e → Reach e
