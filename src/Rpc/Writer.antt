-- ===== src/Rpc/Writer.antt =====
-- internal/rpc/dispatch.go: writeResponse under writeMu, called by any number of goroutines at once.
-- A step is what one goroutine does between two points where another may run.
pub mod Peer
pub mod Kept
pub mod Order
use nunya_core.Common.{
  ℕ, suc, ◌+◌, ◌<◌, ◌≡◌, ◌≢◌, Bool, true, false, Option, none, some, List, [], ◌∷◌, ◌++◌, length,
  take,
}
use nunya_core.Rpc.Frame.{Response, response_header}

pub record Wire : Type 0 where
  pub given : List Response  -- every response that writeResponse was called with, latest first
  pub out : List ℕ  -- what the connection has taken
  pub up : Bool  -- false once a Write has failed
  pub waiting : List Response  -- goroutines that have not got writeMu
  pub writing : Option Response  -- the holder of writeMu between its two Writes
  pub done : List Response  -- the responses sent whole, in the order of sending

abbrev pub idle_wire : Wire
idle_wire = record { given = []; out = []; up = true; waiting = []; writing = none; done = [] }

pub data Step (w : Wire) : Wire → Type 0 where
  -- A handler ends, and its goroutine calls writeResponse.
  respond : (r : Response) → Step w (record w { given = r ∷ w.given; waiting = r ∷ w.waiting })
  -- Any waiting goroutine may get the mutex. With no data the header is the whole response.
  send_bare :
      (before : List Response) (r : Response) (after : List Response)
      → w.up ≡ true
      → w.writing ≡ none
      → w.waiting ≡ before ++ (r ∷ after)
      → r.payload ≡ []
      → Step w (record w {
        out = w.out ++ response_header r;
        waiting = before ++ after;
        done = w.done ++ (r ∷ []);
      })
  send_header :
      (before : List Response) (r : Response) (after : List Response)
      → w.up ≡ true
      → w.writing ≡ none
      → w.waiting ≡ before ++ (r ∷ after)
      → r.payload ≢ []
      → Step w (record w {
        out = w.out ++ response_header r;
        waiting = before ++ after;
        writing = some r;
      })
  send_data :
      (r : Response)
      → w.up ≡ true
      → w.writing ≡ some r
      → Step w (record w { out = w.out ++ r.payload; writing = none; done = w.done ++ (r ∷ []) })
  -- A Write that fails has sent a part of its bytes, and each later one fails at once.
  fail_header :
      (before : List Response) (r : Response) (after : List Response) (k : ℕ)
      → w.up ≡ true
      → w.writing ≡ none
      → w.waiting ≡ before ++ (r ∷ after)
      → k < length (response_header r)
      → Step w (record w {
        out = w.out ++ take k (response_header r);
        up = false;
        waiting = before ++ after;
      })
  fail_data :
      (r : Response) (k : ℕ)
      → w.up ≡ true
      → w.writing ≡ some r
      → k < length r.payload
      → Step w (record w { out = w.out ++ take k r.payload; up = false; writing = none })
  refuse :
      (before : List Response) (r : Response) (after : List Response)
      → w.up ≡ false
      → w.writing ≡ none
      → w.waiting ≡ before ++ (r ∷ after)
      → Step w (record w { waiting = before ++ after })

pub data Reach : Wire → Type 0 where
  unused : Reach idle_wire
  then_ : {v w : Wire} → Reach v → Step v w → Reach w
