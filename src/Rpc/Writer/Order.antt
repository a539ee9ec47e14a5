-- ===== src/Rpc/Writer/Order.antt =====
-- What the peer reads off the connection, whichever goroutine got the mutex when.
use nunya_core.Common.{
  ℕ, suc, ◌<◌, ◌≡◌, ◌≢◌, refl, ap, sym, ◌∙◌, true, none, some, List, [], ◌∷◌, ◌++◌, length, take,
  All, append_assoc, append-nil, arith,
}
use nunya_core.Rpc.Frame.{Response, response_header}
use nunya_core.Rpc.Writer.Peer.{
  received, read_response, frames, frame, Fits, IsPart, read_response-frame, read_response_part,
  split_take, frames-snoc, read_response-nil, header_IsPart,
}
use nunya_core.Rpc.Writer.Kept.{Kept, earlier, Reach-Kept, picked}
use nunya_core.Rpc.Writer.{
  Wire, Step, respond, send_bare, send_header, send_data, fail_header, fail_data, refuse, Reach,
  unused, then_,
}

-- What holds between two steps: whole frames, then a part of one more.
record Inv (w : Wire) : Type 0 where
  partial : List ℕ
  sent : w.out ≡ frames w.done ++ partial
  whole : w.up ≡ true → w.writing ≡ none → partial ≡ []
  half : (r : Response) → w.writing ≡ some r → (partial ≡ response_header r) × (r.payload ≢ [])
  unread : read_response partial ≡ none

module _ {v : Wire} (i : Inv v) where
  -- With the connection up and writeMu free, the bytes sent are whole frames.
  out_whole : v.up ≡ true → v.writing ≡ none → v.out ≡ frames v.done ++ []
  out_whole up free = cc (i.sent, i.whole up free)

  sent_bare :
      (r : Response)
      → v.up ≡ true
      → v.writing ≡ none
      → r.payload ≡ []
      → v.out ++ response_header r ≡ frames (v.done ++ (r ∷ [])) ++ []
  unfolding frame
  sent_bare r up free bare =
      frames-snoc v.out v.done r [] (response_header r) (out_whole up free)
        (sym (ap (◌++◌ (response_header r)) bare ∙ append-nil (response_header r)))

  sent_data :
      (r : Response) → v.writing ≡ some r → v.out ++ r.payload ≡ frames (v.done ++ (r ∷ [])) ++ []
  unfolding frame
  sent_data r e =
      frames-snoc v.out v.done r i.partial r.payload i.sent
        (ap (λ p. p ++ r.payload) (i.half r e).0)

  sent_part : (p : List ℕ) → v.up ≡ true → v.writing ≡ none → v.out ++ p ≡ frames v.done ++ p
  sent_part p up free = ap (λ o. o ++ p) (out_whole up free ∙ append-nil (frames v.done))

  sent_more :
      (r : Response) (p : List ℕ)
      → v.writing ≡ some r
      → v.out ++ p ≡ frames v.done ++ (response_header r ++ p)
  sent_more r p e =
      ap (λ o. o ++ p) i.sent
      ∙ append_assoc (frames v.done) i.partial p
      ∙ ap (λ q. frames v.done ++ (q ++ p)) (i.half r e).0

header_cut :
    (n : ℕ) (r : Response) → n < length (response_header r) → IsPart (take n (response_header r)) r
unfolding frame
header_cut n r h =
    let (x, back, e) = split_take n (response_header r) h in
    record {
      missing = x;
      others = back ++ r.payload;
      joined =
          sym (append_assoc (take n (response_header r)) (x ∷ back) r.payload)
          ∙ ap (λ u. u ++ r.payload) e;
    }

data_cut :
    (n : ℕ) (r : Response) → n < length r.payload → IsPart (response_header r ++ take n r.payload) r
unfolding frame
data_cut n r h =
    let (x, back, e) = split_take n r.payload h in
    record {
      missing = x;
      others = back;
      joined =
          append_assoc (response_header r) (take n r.payload) (x ∷ back)
          ∙ ap (◌++◌ (response_header r)) e;
    }

same_full : (r q : Response) → some r ≡ some q → r.payload ≢ [] → q.payload ≢ []
same_full r q e full p = full (ground arith)

Step-Inv : {v w : Wire} → Step v w → Kept Fits v → Inv v → Inv w
Step-Inv (respond r) k i = record {
  partial = i.partial;
  sent = i.sent;
  whole = i.whole;
  half = i.half;
  unread = i.unread;
}
Step-Inv {v} (send_bare before r after up free e bare) k i = record {
  partial = [];
  sent = sent_bare i r up free bare;
  whole = λ _ _. refl;
  half = λ q eq. cc;
  unread = read_response-nil;
}
Step-Inv {v} (send_header before r after up free e full) k i = record {
  partial = response_header r;
  sent = sent_part i (response_header r) up free;
  whole = λ _ eq. cc;
  half = λ q eq. (ground arith, same_full r q eq full);
  unread = read_response_part _ r (picked Fits {w = v} before r after k e).0 (header_IsPart r full);
}
Step-Inv (send_data r up e) k i = record {
  partial = [];
  sent = sent_data i r e;
  whole = λ _ _. refl;
  half = λ q eq. cc;
  unread = read_response-nil;
}
Step-Inv {v} (fail_header before r after n up free e h) k i = record {
  partial = take n (response_header r);
  sent = sent_part i (take n (response_header r)) up free;
  whole = λ eq _. cc;
  half = λ q eq. cc;
  unread = read_response_part _ r (picked Fits {w = v} before r after k e).0 (header_cut n r h);
}
Step-Inv (fail_data r n up e h) k i = record {
  partial = response_header r ++ take n r.payload;
  sent = sent_more i r (take n r.payload) e;
  whole = λ eq _. cc;
  half = λ q eq. cc;
  unread = read_response_part _ r (k.writing_kept r e) (data_cut n r h);
}
Step-Inv (refuse before r after down free e) k i = record {
  partial = i.partial;
  sent = i.sent;
  whole = i.whole;
  half = i.half;
  unread = i.unread;
}

Reach-Inv : {w : Wire} → Reach w → All Fits w.given → Inv w
Reach-Inv unused h = record {
  partial = [];
  sent = refl;
  whole = λ _ _. refl;
  half = λ r e. cc;
  unread = read_response-nil;
}
Reach-Inv (then_ {v} r s) h =
    let h' = earlier Fits s h in Step-Inv s (Reach-Kept Fits r h') (Reach-Inv r h')

received-frames :
    (rs : List Response) (tail : List ℕ)
    → All Fits rs
    → read_response tail ≡ none
    → received (suc (length rs)) (frames rs ++ tail) ≡ rs
unfolding received
received-frames [] tail h e = rw (e, received)
received-frames (r ∷ rs) tail h e = rw (append_assoc (frame r) (frames rs) tail) (
    rw (read_response-frame r (frames rs ++ tail) h.0, received)
      (ap (◌∷◌ r) (received-frames rs tail h.1 e)))

-- Whatever the goroutines' order, and whether or not the connection fails, the peer reads whole
-- responses in the order in which they were sent, and never a mixture of two.
pub received-Reach :
    {w : Wire} → Reach w → All Fits w.given → received (suc (length w.done)) w.out ≡ w.done
received-Reach {w} r h =
    let i = Reach-Inv r h in
    rw i.sent (received-frames w.done i.partial (Reach-Kept Fits r h).done_kept i.unread)
