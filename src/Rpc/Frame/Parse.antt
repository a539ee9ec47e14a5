-- ===== src/Rpc/Frame/Parse.antt =====
-- Reading one request frame: the reader against the frame that the protocol documents.
use nunya_core.Common.{
  ℕ, zero, suc, ◌<◌, ◌≡◌, refl, ap, sym, ◌∙◌, some, List, [], ◌∷◌, ◌++◌, append_assoc, append-nil,
  ◌≤◌, arith, length, take, drop, inl, inr, Option-cases, length-append, take-append_self,
  drop-append_self, All,
}
use nunya_core.Rpc.Frame.{
  Reader, ◌>>=◌, Request, put_u32, put_u16, read_full, read_u32, read_u16, read_request,
}

abbrev pub IsByte : ℕ → Type 0
IsByte b = b < 256

-- The frame of the package documentation: [u32 id][u16 method_len][method][u32 payload_len][payload].
unfoldable pub encode : Request → List ℕ
encode r =
    put_u32 r.id
    ++ (put_u16 (length r.method) ++ (r.method ++ (put_u32 (length r.payload) ++ r.payload)))

-- The lengths and the id that a frame has room for.
pub record Fits (r : Request) : Type 0 where
  pub id_u32 : r.id < 4294967296
  pub method_u16 : length r.method < 65536
  pub payload_u32 : length r.payload < 4294967296

pub read_u32-put_u32 :
    (n : ℕ) (s : List ℕ) → n < 4294967296 → read_u32 (put_u32 n ++ s) ≡ some (n, s)
unfolding read_u32 put_u32
read_u32-put_u32 n s h = ground arith

read_u16-put_u16 : (n : ℕ) (s : List ℕ) → n < 65536 → read_u16 (put_u16 n ++ s) ≡ some (n, s)
unfolding read_u16 put_u16
read_u16-put_u16 n s h = ground arith

pub read_full-append : (xs s : List ℕ) → read_full (length xs) (xs ++ s) ≡ some (xs, s)
unfolding read_full
read_full-append xs s =
    ground (arith, length-append xs s, take-append_self xs s, drop-append_self xs s)

-- A frame is read back, and what follows it is left.
pub read_request-encode :
    (r : Request) (rest : List ℕ) → Fits r → read_request (encode r ++ rest) ≡ some (r, rest)
unfolding read_request encode
read_request-encode r rest h = simp (
  ◌>>=◌,
  append_assoc,
  read_u32-put_u32 r.id _ h.id_u32,
  read_u16-put_u16 (length r.method) _ h.method_u16,
  read_full-append,
  read_u32-put_u32 (length r.payload) _ h.payload_u32,
)

pub read_u32-append :
    (s more : List ℕ) (n : ℕ) (rest : List ℕ)
    → read_u32 s ≡ some (n, rest)
    → read_u32 (s ++ more) ≡ some (n, rest ++ more)
unfolding read_u32
read_u32-append s more n rest h = ground arith

pub read_u16-append :
    (s more : List ℕ) (n : ℕ) (rest : List ℕ)
    → read_u16 s ≡ some (n, rest)
    → read_u16 (s ++ more) ≡ some (n, rest ++ more)
unfolding read_u16
read_u16-append s more n rest h = ground arith

take-append_le :
    {A : Type 0} (n : ℕ) (s more : List A) → n ≤ length s → take n (s ++ more) ≡ take n s
take-append_le zero s more h = refl
take-append_le (suc n) [] more h = absurd (omega arith)
take-append_le (suc n) (x ∷ s) more h = ap (◌∷◌ x) (take-append_le n s more (omega arith))

drop-append_le :
    {A : Type 0} (n : ℕ) (s more : List A) → n ≤ length s → drop n (s ++ more) ≡ drop n s ++ more
drop-append_le zero s more h = refl
drop-append_le (suc n) [] more h = absurd (omega arith)
drop-append_le (suc n) (x ∷ s) more h = drop-append_le n s more (omega arith)

pub read_full-append_some :
    (k : ℕ) (s more xs rest : List ℕ)
    → read_full k s ≡ some (xs, rest)
    → read_full k (s ++ more) ≡ some (xs, rest ++ more)
unfolding read_full
read_full-append_some k s more xs rest h =
    ground (arith, length-append s more, take-append_le k s more, drop-append_le k s more)

-- A reader does not look past what it takes: bytes behind the input join the rest.
abbrev pub IsStable {ℓ} : {A : Type ℓ} → Reader A → Type ℓ
IsStable {A} m =
    (s more : List ℕ) (a : A) (rest : List ℕ)
    → m s ≡ some (a, rest)
    → m (s ++ more) ≡ some (a, rest ++ more)

-- What a reader takes off the input, for a relation between the value and the bytes taken.
abbrev pub Takes {ℓ κ} : {A : Type ℓ} → Reader A → (A → List ℕ → Type κ) → Type (ℓ ⊔ κ)
Takes {A} m P =
    (s : List ℕ) (a : A) (rest : List ℕ)
    → All IsByte s
    → m s ≡ some (a, rest)
    → (used : List ℕ) × (s ≡ used ++ rest) × P a used × All IsByte rest

module _ {A B : Type 0} (m : Reader A) (f : A → Reader B) where
  bind-eq-some :
      (s : List ℕ) {p : B × List ℕ}
      → (m >>= f) s ≡ some p
      → (a : A) × (rest : List ℕ) × (m s ≡ some (a, rest)) × (f a rest ≡ some p)
  bind-eq-some s h = elim (Option-cases (m s)) [
    | inl e ↦ cc (rw (e, ◌>>=◌) at h)
    | inr ((a, rest), e) ↦ (a, rest, e, rw (e, ◌>>=◌) at h)
  ]

  pub bind-IsStable : IsStable m → ((a : A) → IsStable (f a)) → IsStable (m >>= f)
  bind-IsStable hm hf s more b rest h =
      let (a, mid, e, h') = bind-eq-some s h in
      rw (hm s more a mid e, ◌>>=◌) (hf a mid more b rest h')

  pub bind-Takes :
      (P : A → List ℕ → Type 0) (Q : B → List ℕ → Type 0)
      → Takes m P
      → ((a : A) → Takes (f a) (λ b v. (u : List ℕ) → P a u → Q b (u ++ v)))
      → Takes (m >>= f) Q
  bind-Takes P Q hm hf s b rest hs h =
      let (a, mid, e, h') = bind-eq-some s h in
      let (u, eu, pu, hmid) = hm s a mid hs e in
      let (v, ev, qv, hrest) = hf a mid b rest hmid h' in
      (u ++ v, eu ∙ ap (◌++◌ u) ev ∙ sym (append_assoc u v rest), qv u pu, hrest)

read_u32-Takes : Takes read_u32 (λ n u. (u ≡ put_u32 n) × (n < 4294967296))
unfolding read_u32 put_u32
read_u32-Takes (a ∷ b ∷ c ∷ d ∷ s) n rest hs h =
    (a ∷ b ∷ c ∷ d ∷ [], ground arith, ground arith, ground arith)
read_u32-Takes [] n rest hs h = cc
read_u32-Takes (a ∷ []) n rest hs h = cc
read_u32-Takes (a ∷ b ∷ []) n rest hs h = cc
read_u32-Takes (a ∷ b ∷ c ∷ []) n rest hs h = cc

read_u16-Takes : Takes read_u16 (λ n u. (u ≡ put_u16 n) × (n < 65536))
unfolding read_u16 put_u16
read_u16-Takes (a ∷ b ∷ s) n rest hs h = (a ∷ b ∷ [], ground arith, ground arith, ground arith)
read_u16-Takes [] n rest hs h = cc
read_u16-Takes (a ∷ []) n rest hs h = cc

take-append-drop : (k : ℕ) (s : List ℕ) → s ≡ take k s ++ drop k s
take-append-drop zero s = refl
take-append-drop (suc k) [] = refl
take-append-drop (suc k) (x ∷ s) = ap (◌∷◌ x) (take-append-drop k s)

drop-All : (k : ℕ) (s : List ℕ) → All IsByte s → All IsByte (drop k s)
drop-All zero s h = h
drop-All (suc k) [] h = h
drop-All (suc k) (x ∷ s) h = drop-All k s h.1

length-take_le : (k : ℕ) (s : List ℕ) → k ≤ length s → length (take k s) ≡ k
length-take_le zero s h = refl
length-take_le (suc k) [] h = absurd (omega arith)
length-take_le (suc k) (x ∷ s) h = ap suc (length-take_le k s (omega arith))

read_full-Takes : (k : ℕ) → Takes (read_full k) (λ xs u. (u ≡ xs) × (length xs ≡ k))
unfolding read_full
read_full-Takes k s xs rest hs h = (
  take k s,
  ground (arith, take-append-drop k s),
  (ground arith, ground (arith, length-take_le k s)),
  ground (arith, drop-All k s hs),
)

pub read_request-IsStable : IsStable read_request
unfolding read_request
read_request-IsStable = bind-IsStable _ _ read_u32-append λ id.
    bind-IsStable _ _ read_u16-append λ method_len.
      bind-IsStable _ _ (read_full-append_some method_len) λ method.
        bind-IsStable _ _ read_u32-append λ payload_len.
          bind-IsStable _ _ (read_full-append_some payload_len)
            λ payload s more a rest h. ground arith

-- Every request that is read was sent as its frame, whole.
pub read_request-Takes : Takes read_request (λ r u. (u ≡ encode r) × Fits r)
unfolding read_request encode
read_request-Takes = bind-Takes _ _ _ _ read_u32-Takes λ id.
    bind-Takes _ _ _ _ read_u16-Takes λ method_len.
      bind-Takes _ _ _ _ (read_full-Takes method_len) λ method.
        bind-Takes _ _ _ _ read_u32-Takes λ payload_len.
          bind-Takes _ _ _ _ (read_full-Takes payload_len) λ payload s a rest hs h. (
            [],
            ground arith,
            (λ u₅ h₅ u₄ h₄ u₃ h₃ u₂ h₂ u₁ h₁. (ground (arith, append-nil payload), ground arith)),
            ground arith,
          )
