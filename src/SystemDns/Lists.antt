-- ===== src/SystemDns/Lists.antt =====
-- Lists of servers: the scan of one with a mark and one without, and the list of an interface that
-- was set.
use nunya_core.Common.{
  ℕ, ◌≡◌, ◌∙◌, refl, sym, ap, Bool, true, false, not, ◌&&◌, ◌||◌, List, [], ◌∷◌, ◌++◌, append-nil,
  append_assoc, ◌==◌, if◌then◌else◌, ltb, arith, Bool-cases, inl, inr,
}
use nunya_core.SystemDns.Manager.{
  local_addr, dhcp_mark_addr, set_mark_addr, Scan, scan_one, scan_from, scan, has_mark, mark,
}

abbrev pub is_v4 : ℕ → Bool
is_v4 a = ltb a 4294967296

unfoldable pub v4s : List ℕ → List ℕ
v4s [] = []
v4s (a ∷ as_) = let rest = v4s as_ in if is_v4 a then a ∷ rest else rest

unfoldable pub v6s : List ℕ → List ℕ
v6s [] = []
v6s (a ∷ as_) = let rest = v6s as_ in if is_v4 a then rest else a ∷ rest

abbrev is_mark : ℕ → Bool
is_mark a = a == set_mark_addr || a == dhcp_mark_addr

unfoldable pub unmarked : List ℕ → Bool
unmarked [] = true
unmarked (a ∷ as_) = not (is_mark a) && unmarked as_

v4s-append : (xs ys : List ℕ) → v4s (xs ++ ys) ≡ v4s xs ++ v4s ys
unfolding v4s
v4s-append [] ys = refl
v4s-append (x ∷ xs) ys = ground (arith, v4s-append xs ys)

v6s-append : (xs ys : List ℕ) → v6s (xs ++ ys) ≡ v6s xs ++ v6s ys
unfolding v6s
v6s-append [] ys = refl
v6s-append (x ∷ xs) ys = ground (arith, v6s-append xs ys)

v4s-v4s : (xs : List ℕ) → v4s (v4s xs) ≡ v4s xs
unfolding v4s
v4s-v4s [] = refl
v4s-v4s (x ∷ xs) = ground (arith, v4s-v4s xs)

v4s-v6s : (xs : List ℕ) → v4s (v6s xs) ≡ []
unfolding v4s v6s
v4s-v6s [] = refl
v4s-v6s (x ∷ xs) = ground (arith, v4s-v6s xs)

v6s-v4s : (xs : List ℕ) → v6s (v4s xs) ≡ []
unfolding v4s v6s
v6s-v4s [] = refl
v6s-v4s (x ∷ xs) = ground (arith, v6s-v4s xs)

v6s-v6s : (xs : List ℕ) → v6s (v6s xs) ≡ v6s xs
unfolding v6s
v6s-v6s [] = refl
v6s-v6s (x ∷ xs) = ground (arith, v6s-v6s xs)

unmarked-v4s : (xs : List ℕ) → unmarked xs ≡ true → unmarked (v4s xs) ≡ true
unfolding v4s unmarked
unmarked-v4s [] u = refl
unmarked-v4s (x ∷ xs) u = ground (arith, unmarked-v4s xs)

unmarked-v6s : (xs : List ℕ) → unmarked xs ≡ true → unmarked (v6s xs) ≡ true
unfolding v6s unmarked
unmarked-v6s [] u = refl
unmarked-v6s (x ∷ xs) u = ground (arith, unmarked-v6s xs)

scan_from-append :
    (r : Scan) (xs ys : List ℕ) → scan_from r (xs ++ ys) ≡ scan_from (scan_from r xs) ys
unfolding scan_from
scan_from-append r [] ys = refl
scan_from-append r (x ∷ xs) ys = scan_from-append (scan_one r x) xs ys

pub scan-unmarked :
    (d w : Bool) (as_ xs : List ℕ)
    → unmarked xs ≡ true
    → scan_from (record { is_dhcp = d; was_set = w; servers = as_ }) xs
      ≡ record { is_dhcp = d; was_set = w; servers = as_ ++ xs }
unfolding scan_from scan_one unmarked
scan-unmarked d w as_ [] u =
    ap (λ (l : List ℕ). record { is_dhcp = d; was_set = w; servers = l }) (sym (append-nil as_))
scan-unmarked d w as_ (x ∷ xs) u = elim (Bool-cases (is_mark x)) [
  | inl e ↦ cc
  | inr e ↦ rw e (
      scan-unmarked d w (as_ ++ (x ∷ [])) xs (ground arith)
      ∙ ap (λ (l : List ℕ). record { is_dhcp = d; was_set = w; servers = l })
          (append_assoc as_ (x ∷ []) xs))
]

abbrev start : Scan
start = record { is_dhcp = false; was_set = false; servers = [] }

marked :
    (d : Bool) (xs : List ℕ)
    → scan_one (record { is_dhcp = false; was_set = false; servers = xs }) (mark d)
      ≡ record { is_dhcp = d; was_set = true; servers = xs }
unfolding scan_one
marked true xs = refl
marked false xs = refl

scan-marked :
    (d : Bool) (xs ys : List ℕ)
    → unmarked xs ≡ true
    → unmarked ys ≡ true
    → scan ((xs ++ (mark d ∷ [])) ++ ys)
      ≡ record { is_dhcp = d; was_set = true; servers = xs ++ ys }
unfolding scan_from scan_one
scan-marked d xs ys u v =
    scan_from-append start (xs ++ (mark d ∷ [])) ys
    ∙ ap (λ (r : Scan). scan_from r ys)
        (scan_from-append start xs (mark d ∷ [])
          ∙ ap (λ (r : Scan). scan_from r (mark d ∷ [])) (scan-unmarked false false [] xs u)
          ∙ marked d xs)
    ∙ scan-unmarked d true xs ys v

-- The servers of an interface that was set.
abbrev pub set_list : Bool → List ℕ → List ℕ
set_list d before = (local_addr ∷ (v4s before ++ (mark d ∷ []))) ++ v6s before

v4s-mark : (d : Bool) → v4s (mark d ∷ []) ≡ mark d ∷ []
unfolding v4s
v4s-mark true = refl
v4s-mark false = refl

v6s-mark : (d : Bool) → v6s (mark d ∷ []) ≡ []
unfolding v6s
v6s-mark true = refl
v6s-mark false = refl

v4s-local : (xs : List ℕ) → v4s (local_addr ∷ xs) ≡ local_addr ∷ v4s xs
unfolding v4s
v4s-local xs = refl

v6s-local : (xs : List ℕ) → v6s (local_addr ∷ xs) ≡ v6s xs
unfolding v6s
v6s-local xs = refl

-- What SetDNS makes of the servers that setSystemDNS gives it.
pub v4s-set :
    (d : Bool) (xs : List ℕ)
    → v4s ((local_addr ∷ xs) ++ (mark d ∷ [])) ≡ local_addr ∷ (v4s xs ++ (mark d ∷ []))
v4s-set d xs = simp (v4s-local, v4s-append, v4s-mark)

pub v6s-set_list : (d : Bool) (before : List ℕ) → v6s (set_list d before) ≡ v6s before
v6s-set_list d before = simp (v6s-local, v6s-append, v6s-mark, v6s-v4s, v6s-v6s)

pub v4s-both : (before : List ℕ) → v4s (v4s before ++ v6s before) ≡ v4s before
v4s-both before = simp (v4s-append, v4s-v4s, v4s-v6s, append-nil)

pub scan-set_list :
    (d : Bool) (before : List ℕ)
    → unmarked before ≡ true
    → scan (set_list d before)
      ≡ record { is_dhcp = d; was_set = true; servers = (local_addr ∷ v4s before) ++ v6s before }
unfolding unmarked
scan-set_list d before u =
    scan-marked d (local_addr ∷ v4s before) (v6s before) (unmarked-v4s before u)
      (unmarked-v6s before u)

has_mark-append : (xs ys : List ℕ) → has_mark (xs ++ ys) ≡ (has_mark xs || has_mark ys)
unfolding has_mark
has_mark-append [] ys = refl
has_mark-append (x ∷ xs) ys = ground (arith, has_mark-append xs ys)

has_mark-unmarked : (xs : List ℕ) → unmarked xs ≡ true → has_mark xs ≡ false
unfolding has_mark unmarked
has_mark-unmarked [] u = refl
has_mark-unmarked (x ∷ xs) u = ground (arith, has_mark-unmarked xs)

has_mark-one : (d : Bool) → has_mark (mark d ∷ []) ≡ d
unfolding has_mark
has_mark-one true = refl
has_mark-one false = refl

pub has_mark-set_list :
    (d : Bool) (before : List ℕ) → unmarked before ≡ true → has_mark (set_list d before) ≡ d
unfolding unmarked
has_mark-set_list d before u =
    has_mark-append (local_addr ∷ (v4s before ++ (mark d ∷ []))) (v6s before)
    ∙ ground (
      arith,
      has_mark-append (local_addr ∷ v4s before) (mark d ∷ []),
      has_mark-unmarked (local_addr ∷ v4s before) (unmarked-v4s before u),
      has_mark-unmarked (v6s before) (unmarked-v6s before u),
      has_mark-one d,
    )

pub relisted :
    (c d : Bool) (before : List ℕ)
    → c ≡ d
    → (local_addr ∷ (v4s (v4s before ++ v6s before) ++ (mark c ∷ []))) ++ v6s (set_list d before)
      ≡ set_list d before
relisted c d before q =
    ap
      (λ (b : Bool).
        (local_addr ∷ (v4s (v4s before ++ v6s before) ++ (mark b ∷ []))) ++ v6s (set_list d before))
      q
    ∙ ap (λ (x : List ℕ). (local_addr ∷ (x ++ (mark d ∷ []))) ++ v6s (set_list d before))
        (v4s-both before)
    ∙ ap (λ (x : List ℕ). (local_addr ∷ (v4s before ++ (mark d ∷ []))) ++ x) (v6s-set_list d before)
