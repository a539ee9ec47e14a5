-- ===== src/Rpc/Writer/Kept.antt =====
-- What is sent was given to writeResponse.
use nunya_core.Common.{◌≡◌, subst, some, List, [], ◌∷◌, ◌++◌, All, All-append}
use nunya_core.Rpc.Frame.{Response}
use nunya_core.Rpc.Writer.{
  Wire, Step, respond, send_bare, send_header, send_data, fail_header, fail_data, refuse, Reach,
  unused, then_,
}

-- Nothing is sent, or waits to be, that was not given to writeResponse.
pub record Kept (P : Response → Type 0) (w : Wire) : Type 0 where
  pub done_kept : All P w.done
  pub waiting_kept : All P w.waiting
  pub writing_kept : (r : Response) → w.writing ≡ some r → P r

pub All-remove :
    (P : Response → Type 0) (before : List Response) {r : Response} (after : List Response)
    → All P (before ++ (r ∷ after))
    → P r × All P (before ++ after)
All-remove P [] after h = h
All-remove P (b ∷ before) after h =
    let (p, rest) = All-remove P before after h.1 in (p, (h.0, rest))

All-snoc :
    (P : Response → Type 0) (rs : List Response) {r : Response}
    → All P rs
    → P r
    → All P (rs ++ (r ∷ []))
All-snoc P rs h p = All-append P rs _ h (p, tt)

module _ (P : Response → Type 0) where
  pub picked :
      {w : Wire} (before : List Response) (r : Response) (after : List Response)
      → Kept P w
      → w.waiting ≡ before ++ (r ∷ after)
      → P r × All P (before ++ after)
  picked before r after k e = All-remove P before after (subst (All P) e k.waiting_kept)

  Step-Kept : {v w : Wire} → Step v w → All P w.given → Kept P v → Kept P w
  Step-Kept (respond r) h k = record {
    done_kept = k.done_kept;
    waiting_kept = (h.0, k.waiting_kept);
    writing_kept = k.writing_kept;
  }
  Step-Kept {v} (send_bare before r after up free e bare) h k =
      let (p, rest) = picked {w = v} before r after k e in
      record {
        done_kept = All-snoc P v.done k.done_kept p;
        waiting_kept = rest;
        writing_kept = k.writing_kept;
      }
  Step-Kept {v} (send_header before r after up free e full) h k =
      let (p, rest) = picked {w = v} before r after k e in
      record { done_kept = k.done_kept; waiting_kept = rest; writing_kept = λ q eq. subst P (cc) p }
  Step-Kept {v} (send_data r up e) h k = record {
    done_kept = All-snoc P v.done k.done_kept (k.writing_kept r e);
    waiting_kept = k.waiting_kept;
    writing_kept = λ q eq. cc;
  }
  Step-Kept {v} (fail_header before r after n up free e lt) h k = record {
    done_kept = k.done_kept;
    waiting_kept = (picked {w = v} before r after k e).1;
    writing_kept = k.writing_kept;
  }
  Step-Kept (fail_data r n up e lt) h k = record {
    done_kept = k.done_kept;
    waiting_kept = k.waiting_kept;
    writing_kept = λ q eq. cc;
  }
  Step-Kept {v} (refuse before r after down free e) h k = record {
    done_kept = k.done_kept;
    waiting_kept = (picked {w = v} before r after k e).1;
    writing_kept = k.writing_kept;
  }

  pub earlier : {v w : Wire} → Step v w → All P w.given → All P v.given
  earlier (respond r) h = h.1
  earlier (send_bare before r after up free e bare) h = h
  earlier (send_header before r after up free e full) h = h
  earlier (send_data r up e) h = h
  earlier (fail_header before r after n up free e lt) h = h
  earlier (fail_data r n up e lt) h = h
  earlier (refuse before r after down free e) h = h

  pub Reach-Kept : {w : Wire} → Reach w → All P w.given → Kept P w
  Reach-Kept unused h = record { done_kept = tt; waiting_kept = tt; writing_kept = λ r e. cc }
  Reach-Kept (then_ r s) h = Step-Kept s h (Reach-Kept r (earlier s h))
