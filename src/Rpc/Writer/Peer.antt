-- ===== src/Rpc/Writer/Peer.antt =====
-- The peer's side of the connection: reading response frames, whole and cut short.
use nunya_core.Common.{
  ℕ, zero, suc, ◌<◌, ◌≡◌, ◌≢◌, refl, ap, sym, ◌∙◌, none, some, List, [], ◌∷◌, ◌++◌, length, take,
  append_assoc, append-nil, arith, length-append, inl, inr, Option-cases,
}
use nunya_core.Rpc.Frame.{Reader, ◌>>=◌, yield, Response, response_header, read_u32, read_full}
use nunya_core.Rpc.Frame.Parse.{
  read_u32-put_u32, read_full-append, read_u32-append, read_full-append_some, bind-IsStable,
  IsStable,
}

read_u8 : Reader ℕ
read_u8 [] = none
read_u8 (b ∷ s) = some (b, s)

-- The peer's reading of one response frame: [u32 id][u8 status][u32 payload_len][payload].
unfoldable pub read_response : Reader Response
unfolding read_u8
read_response = do
  id ← read_u32
  status ← read_u8
  payload_len ← read_u32
  payload ← read_full payload_len
  yield (record { id = id; status = status; payload = payload })

-- The responses that the peer has read once the bytes `s` have come.
unfoldable pub received : ℕ → List ℕ → List Response
received zero s = []
received (suc fuel) s = elim (read_response s) [
  | none ↦ []
  | some (r, rest) ↦ r ∷ received fuel rest
]

pub record Fits (r : Response) : Type 0 where
  pub id_u32 : r.id < 4294967296
  pub payload_u32 : length r.payload < 4294967296

unfoldable pub frame : Response → List ℕ
frame r = response_header r ++ r.payload

abbrev pub frames : List Response → List ℕ
frames [] = []
frames (r ∷ rs) = frame r ++ frames rs

pub read_response-frame :
    (r : Response) (rest : List ℕ) → Fits r → read_response (frame r ++ rest) ≡ some (r, rest)
unfolding read_response frame response_header
read_response-frame r rest h = simp (
  ◌>>=◌,
  append_assoc,
  read_u32-put_u32 r.id _ h.id_u32,
  read_full-append,
  read_u32-put_u32 (length r.payload) _ h.payload_u32,
)

read_response-IsStable : IsStable read_response
unfolding read_response
read_response-IsStable = bind-IsStable _ _ read_u32-append λ id.
    bind-IsStable _ _ read_u8-append λ status. bind-IsStable _ _ read_u32-append λ payload_len.
      bind-IsStable _ _ (read_full-append_some payload_len) λ payload s more a rest h. ground arith
  where
    read_u8-append : IsStable read_u8
    read_u8-append [] more a rest h = cc
    read_u8-append (b ∷ s) more a rest h = ground arith

-- A part of a frame that is not the whole of it.
pub record IsPart (p : List ℕ) (r : Response) : Type 0 where
  pub missing : ℕ
  pub others : List ℕ
  pub joined : p ++ (missing ∷ others) ≡ frame r

pub read_response_part : (p : List ℕ) (r : Response) → Fits r → IsPart p r → read_response p ≡ none
read_response_part p r fits part = elim (Option-cases (read_response p)) [
  | inl e ↦ e
  | inr ((r', rest), e) ↦ absurd (
      omega
        (arith, ap length (leftover r' rest e), length-append rest (part.missing ∷ part.others)))
]
  where
    whole : read_response (p ++ (part.missing ∷ part.others)) ≡ some (r, [])
    whole = rw (append-nil, sym part.joined) at (read_response-frame r [] fits)

    leftover :
        (r' : Response) (rest : List ℕ)
        → read_response p ≡ some (r', rest)
        → [] ≡ rest ++ (part.missing ∷ part.others)
    leftover r' rest e = cc (whole, read_response-IsStable p (part.missing ∷ part.others) r' rest e)

pub split_take :
    {A : Type 0} (k : ℕ) (xs : List A)
    → k < length xs
    → (x : A) × (back : List A) × (take k xs ++ (x ∷ back) ≡ xs)
split_take k [] h = absurd (omega arith)
split_take zero (x ∷ xs) h = (x, xs, refl)
split_take (suc k) (x ∷ xs) h =
    let (y, back, e) = split_take k xs (omega arith) in (y, back, ap (◌∷◌ x) e)

frames-append : (xs ys : List Response) → frames (xs ++ ys) ≡ frames xs ++ frames ys
frames-append [] ys = refl
frames-append (x ∷ xs) ys =
    ap (◌++◌ (frame x)) (frames-append xs ys) ∙ sym (append_assoc (frame x) (frames xs) (frames ys))

-- A frame goes out behind whole frames.
pub frames-snoc :
    (out : List ℕ) (rs : List Response) (r : Response) (p q : List ℕ)
    → out ≡ frames rs ++ p
    → p ++ q ≡ frame r
    → out ++ q ≡ frames (rs ++ (r ∷ [])) ++ []
frames-snoc out rs r p q e f =
    ap (λ o. o ++ q) e
    ∙ append_assoc (frames rs) p q
    ∙ ap (◌++◌ (frames rs)) f
    ∙ sym (append-nil _ ∙ frames-append rs (r ∷ []) ∙ ap (◌++◌ (frames rs)) (append-nil (frame r)))

pub read_response-nil : read_response [] ≡ none
unfolding read_response read_u32
read_response-nil = refl

pub header_IsPart : (r : Response) → r.payload ≢ [] → IsPart (response_header r) r
unfolding frame
header_IsPart r full = go r.payload refl
  where
    go : (d : List ℕ) → r.payload ≡ d → IsPart (response_header r) r
    go [] e = absurd (full e)
    go (x ∷ d) e = record {
      missing = x;
      others = d;
      joined = ap (◌++◌ (response_header r)) (sym e);
    }
