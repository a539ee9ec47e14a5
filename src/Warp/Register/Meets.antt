-- ===== src/Warp/Register/Meets.antt =====
-- Chains of calls that may fail: what holds of their results, and that none panics.
use nunya_core.Common.{
  ◌≡◌, refl, ap, Bool, true, false, not, ◌&&◌, Option, none, some, List, [], ◌∷◌, Try, fails, gives,
  ◌>>=◌, arith, Bool-cases, inl, inr, subst, gives_cancel,
}
use nunya_core.Warp.Hosts.{is_empty}
use nunya_core.Warp.Client.{Peer, Device, CallError, Failure, Registered}
use nunya_core.Warp.Register.{
  RegisterError, panics, Identity, or_error, require, first_peer, has_peer_key, fill_common,
  enrolled, found,
}

abbrev pub is_panic : RegisterError → Bool
is_panic panics = true
is_panic _ = false

-- A result that is no panic and, where it is a value, is as `P` says.
abbrev pub Meets : {A : Type 0} → (A → Type 0) → Try RegisterError A → Type 0
Meets P (fails e) = is_panic e ≡ false
Meets P (gives a) = P a

abbrev pub Gave : {A : Type 0} → Try RegisterError A → A → Type 0
Gave m a = m ≡ gives a

pub bind-Meets :
    {A B : Type 0} (Q : B → Type 0) (m : Try RegisterError A) (f : A → Try RegisterError B)
    → Meets (Gave m) m
    → ((a : A) → m ≡ gives a → Meets Q (f a))
    → Meets Q (m >>= f)
bind-Meets Q (fails e) f h k = h
bind-Meets Q (gives a) f h k = k a refl

pub or_error-Meets :
    {A : Type 0} (e : RegisterError) (o : Option A)
    → is_panic e ≡ false
    → Meets (Gave (or_error e o)) (or_error e o)
or_error-Meets e none h = h
or_error-Meets e (some a) h = refl

pub require-Meets :
    (b : Bool) (e : RegisterError) → is_panic e ≡ false → Meets (Gave (require b e)) (require b e)
require-Meets true e h = refl
require-Meets false e h = h

pub required : (b : Bool) (e : RegisterError) (c : Bool) → require b e ≡ gives c → b ≡ true
required true e c h = refl
required false e c h = cc

pub first_peer-Meets :
    (peers : List Peer)
    → has_peer_key peers ≡ true
    → Meets (Gave (first_peer peers)) (first_peer peers)
first_peer-Meets [] h = cc
first_peer-Meets (p ∷ peers) h = refl

pub found-Meets : (r : Try (List Failure) Registered) → Meets (Gave (found r)) (found r)
found-Meets (fails failures) = refl
found-Meets (gives r) = refl

pub found_gave :
    (m : Try (List Failure) Registered) (r : Registered) → found m ≡ gives r → m ≡ gives r
found_gave (fails failures) r h = cc
found_gave (gives q) r h = ap gives (gives_cancel refl h)

pub enrolled-Meets : (m : Try CallError Device) → Meets (Gave (enrolled m)) (enrolled m)
enrolled-Meets (fails e) = refl
enrolled-Meets (gives d) = refl

pub enrolled_gave : (m : Try CallError Device) (d : Device) → enrolled m ≡ gives d → m ≡ gives d
enrolled_gave (fails e) d h = cc
enrolled_gave (gives c) d h = ap gives (gives_cancel refl h)

abbrev pub has_address : Device → Bool
has_address d = not (is_empty d.v4 && is_empty d.v6)

-- The addresses of a device with a peer.
pub record HasCommon (d : Device) (i j : Identity) : Type 0 where
  pub addressed : has_address d ≡ true
  pub keyed : has_peer_key d.peers ≡ true
  pub made : j ≡ record i { ipv4 = d.v4; ipv6 = d.v6 }

pub fill_common-Meets : (d : Device) (i : Identity) → Meets (HasCommon d i) (fill_common d i)
unfolding fill_common
fill_common-Meets d i = elim (Bool-cases (is_empty d.v4 && is_empty d.v6)) [
  | inl e ↦ simp e refl
  | inr e ↦ elim (Bool-cases (has_peer_key d.peers)) [
    | inl k ↦ simp (e, k) (record { addressed = ground (arith, e); keyed = k; made = refl })
    | inr k ↦ simp (e, k) refl
  ]
]

pub Meets-Gave :
    {A : Type 0} (P : A → Type 0) (m : Try RegisterError A) → Meets P m → Meets (Gave m) m
Meets-Gave P (fails e) h = h
Meets-Gave P (gives a) h = refl

pub meets_gives :
    {A : Type 0} (P : A → Type 0) (m : Try RegisterError A) (a : A) → Meets P m → m ≡ gives a → P a
meets_gives P m a h e = subst (Meets P) e h
