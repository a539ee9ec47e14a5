-- ===== src/Rpc/Frame/Stream.antt =====
-- The loop of Serve over a whole connection.
use nunya_core.Common.{
  ℕ, zero, suc, ◌≤◌, ◌<◌, ◌≡◌, refl, ap, sym, ◌∙◌, none, some, List, [], ◌∷◌, ◌++◌, append_assoc,
  append-nil, arith, length, inl, inr, Option-cases, length-append, All,
}
use nunya_core.Rpc.Frame.{Request, put_u32, read_request, serve_loop, serve}
use nunya_core.Rpc.Frame.Parse.{
  IsByte, encode, Fits, read_request-encode, read_request-IsStable, read_request-Takes,
}

-- The frames of a sequence of requests, one after another.
unfoldable pub frames : List Request → List ℕ
frames [] = []
frames (r ∷ rs) = encode r ++ frames rs

-- What Serve does with a connection that carried `s`: it started `rs`, whose frames were sent
-- whole and in that order, and stopped at `tail`, which holds no whole frame.
pub record Served (s : List ℕ) (rs : List Request) : Type 0 where
  pub tail : List ℕ
  pub sent : s ≡ frames rs ++ tail
  pub fit : All Fits rs
  pub stopped : read_request tail ≡ none

encode-nonempty : (r : Request) → 1 ≤ length (encode r)
unfolding encode put_u32
encode-nonempty r = omega arith

serve_loop-Served :
    (fuel : ℕ) (s : List ℕ)
    → All IsByte s
    → length s < fuel
    → (rs : List Request) × (serve_loop fuel s ≡ some rs) × Served s rs
unfolding serve_loop frames
serve_loop-Served zero s hs h = absurd (omega arith)
serve_loop-Served (suc fuel) s hs h = elim (Option-cases (read_request s)) [
  | inl e ↦ ([], rw (e, serve_loop), record { tail = s; sent = refl; fit = tt; stopped = e })
  | inr ((r, rest), e) ↦
      let (used, split, (is_frame, fits), hrest) = read_request-Takes s r rest hs e in
      let shorter : length rest < fuel =
        omega (
          arith,
          ap length split,
          length-append used rest,
          ap length is_frame,
          encode-nonempty r,
        ) in
      let (rs, loop, served) = serve_loop-Served fuel rest hrest shorter in
      (
        r ∷ rs,
        rw (e, serve_loop) (rw loop),
        record {
          tail = served.tail;
          sent =
              split
              ∙ ap (λ u. u ++ rest) is_frame
              ∙ ap (◌++◌ (encode r)) served.sent
              ∙ sym (append_assoc (encode r) (frames rs) served.tail);
          fit = (fits, served.fit);
          stopped = served.stopped;
        },
      )
]

-- Serve ends on every connection, and starts exactly the requests whose frames arrived whole.
pub serve-Served :
    (s : List ℕ) → All IsByte s → (rs : List Request) × (serve s ≡ some rs) × Served s rs
unfolding serve
serve-Served s hs = serve_loop-Served (suc (length s)) s hs (omega arith)

serve_loop-frames :
    (fuel : ℕ) (rs : List Request) (tail : List ℕ)
    → All Fits rs
    → read_request tail ≡ none
    → length (frames rs ++ tail) < fuel
    → serve_loop fuel (frames rs ++ tail) ≡ some rs
unfolding serve_loop frames
serve_loop-frames zero rs tail fit e h = absurd (omega arith)
serve_loop-frames (suc fuel) [] tail fit e h = rw (e, serve_loop)
serve_loop-frames (suc fuel) (r ∷ rs) tail fit e h =
    let shorter : length (frames rs ++ tail) < fuel = omega (
      arith,
      encode-nonempty r,
      length-append (encode r) (frames rs ++ tail),
      ap length (append_assoc (encode r) (frames rs) tail),
    ) in
    rw (append_assoc (encode r) (frames rs) tail) (
      rw (read_request-encode r (frames rs ++ tail) fit.0, serve_loop)
        (rw (serve_loop-frames fuel rs tail fit.1 e shorter)))

-- A frame that is cut short anywhere is not read.
read_request_truncated :
    (r : Request) (front : List ℕ) (x : ℕ) (back : List ℕ)
    → Fits r
    → encode r ≡ front ++ (x ∷ back)
    → read_request front ≡ none
read_request_truncated r front x back fits e = elim (Option-cases (read_request front)) [
  | inl h ↦ h
  | inr ((r', rest), h) ↦
      absurd (omega (arith, ap length (leftover rest r' h), length-append rest (x ∷ back)))
]
  where
    rest_of : List ℕ → List ℕ
    rest_of s = elim (read_request s) [ none ↦ [] | some (a, rest) ↦ rest ]

    whole : read_request (front ++ (x ∷ back)) ≡ some (r, [])
    whole = rw (append-nil, e) at (read_request-encode r [] fits)

    leftover :
        (rest : List ℕ) (r' : Request)
        → read_request front ≡ some (r', rest)
        → [] ≡ rest ++ (x ∷ back)
    leftover rest r' h = cc (whole, read_request-IsStable front (x ∷ back) r' rest h)

-- Requests sent as frames are started in that order, and one that the peer's going away cut short
-- is not.
pub serve-frames :
    (rs : List Request) (r : Request) (front : List ℕ) (x : ℕ) (back : List ℕ)
    → All Fits rs
    → Fits r
    → encode r ≡ front ++ (x ∷ back)
    → serve (frames rs ++ front) ≡ some rs
unfolding serve
serve-frames rs r front x back fit fits e =
    serve_loop-frames _ rs front fit (read_request_truncated r front x back fits e) (omega arith)
