-- ===== src/Warp/Client/Once.antt =====
-- A device is registered at one host at most.
use nunya_core.Common.{
  ℕ, ◌+◌, ◌≡◌, ◌≤◌, ◌<◌, refl, ap, Bool, true, false, not, ◌&&◌, ◌||◌, none, some, List, [], ◌∷◌,
  ◌++◌, ◌==◌, if◌then◌else◌, leb, ltb, map, length, Try, fails, gives, arith, Bool-cases, inl, inr,
}
use nunya_core.Warp.Client.{
  Device, Exchange, unreachable, unanswered, truncated, answered, CallError, call, connected,
  is_rejected, Attempt, Failure, Registered, failed_with, after_call, register,
}

-- The request reached a server that did not refuse it: no answer, or one that is not of the kind
-- "client error", or the one that limits the rate.
abbrev pub may_register : Exchange → Bool
may_register unreachable = false
may_register unanswered = true
may_register truncated = true
may_register (answered code body) = ltb code 400 || leb 500 code || code == 429

pub count_may : List Attempt → ℕ
count_may [] = 0
count_may (x ∷ xs) = (if may_register x.exchange then 1 else 0) + count_may xs

-- `tried` are the hosts that were asked, in order, and `rest` those that were not.
abbrev pub RegisterPost : List Attempt → List Attempt → Try (List Failure) Registered → Type 0
RegisterPost tried rest (gives r) =
    (before : List Attempt) × (x : Attempt) × (tried ≡ before ++ (x ∷ []))
    × (count_may before ≡ 0)
    × (r.host ≡ x.host)
    × ((code : ℕ) × (x.exchange ≡ answered code (some r.device)) × (200 ≤ code) × (code < 300))
RegisterPost tried rest (fails failures) =
    (map (λ (f : Failure). f.host) failures ≡ map (λ (x : Attempt). x.host) tried)
    × (count_may tried ≤ 1)
    × (0 < length rest
        → (before : List Attempt) × (x : Attempt) × (tried ≡ before ++ (x ∷ []))
          × ((may_register x.exchange || x.done) ≡ true))

failed-may :
    (x : Exchange) (e : CallError)
    → call x ≡ fails e
    → (connected x && not (is_rejected e)) ≡ may_register x
unfolding call is_rejected
failed-may unreachable e h = refl
failed-may unanswered e h = ground arith
failed-may truncated e h = ground arith
failed-may (answered code none) e h = ground arith
failed-may (answered code (some d)) e h = ground arith

gave_device :
    (x : Exchange) (d : Device)
    → call x ≡ gives d
    → (code : ℕ) × (x ≡ answered code (some d)) × (200 ≤ code) × (code < 300)
unfolding call
gave_device unreachable d h = cc
gave_device unanswered d h = cc
gave_device truncated d h = cc
gave_device (answered code none) d h = ground arith
gave_device (answered code (some c)) d h = (code, ground arith, ground arith, ground arith)

abbrev pub Searched : List Attempt → Try (List Failure) Registered → Type 0
Searched xs r =
    (tried : List Attempt) × (rest : List Attempt) × (xs ≡ tried ++ rest)
    × RegisterPost tried rest r

failed-Searched :
    (x : Attempt) (e : CallError) (xs : List Attempt) (r : Try (List Failure) Registered)
    → may_register x.exchange ≡ false
    → Searched xs r
    → Searched (x ∷ xs) (failed_with (record { host = x.host; error = e }) r)
unfolding count_may
failed-Searched x e xs (fails fs) m (tried, rest, s, (hosts, once, stopped)) = (
  x ∷ tried,
  rest,
  ap (◌∷◌ x) s,
  (
    ap (◌∷◌ x.host) hosts,
    ground (arith, once, m),
    λ more. let (before, y, t, k) = stopped more in (x ∷ before, y, ap (◌∷◌ x) t, k),
  ),
)
failed-Searched x e xs (gives d) m (tried, rest, s, (before, y, t, zero_, same, got)) =
    (x ∷ tried, rest, ap (◌∷◌ x) s, (x ∷ before, y, ap (◌∷◌ x) t, ground (arith, zero_), same, got))

after-Searched :
    (x : Attempt) (xs : List Attempt) (m : Try CallError Device) (r : Try (List Failure) Registered)
    → call x.exchange ≡ m
    → Searched xs r
    → Searched (x ∷ xs) (after_call x m r)
unfolding count_may
after-Searched x xs (gives d) r c p =
    (x ∷ [], xs, refl, ([], x, refl, refl, refl, gave_device x.exchange d c))
after-Searched x xs (fails e) r c p =
    let may = failed-may x.exchange e c in
    elim (Bool-cases ((connected x.exchange && not (is_rejected e)) || x.done)) [
      | inl stop ↦
          simp stop (
            x ∷ [],
            xs,
            refl,
            (refl, ground arith, λ more. ([], x, refl, ground (arith, may, stop))),
          )
      | inr goes_on ↦ simp goes_on (failed-Searched x e xs r (ground (arith, may, goes_on)) p)
    ]

-- For every list of hosts and whatever comes of the requests: the hosts that are asked are the first
-- ones of the list. If a device is returned, it is what the last of them answered with a status of
-- 2xx, and no host before may have registered one: it was not reached, or it refused with a status
-- of 4xx other than 429. If none is returned, there is a failure for each host asked, in order, at
-- most one of them may have registered a device, and where hosts are left, the last one asked may
-- have, or the context was done.
pub register-Searched : (xs : List Attempt) → Searched xs (register xs)
unfolding register count_may
register-Searched [] = ([], [], refl, (refl, omega arith, λ more. absurd (omega arith)))
register-Searched (x ∷ xs) =
    after-Searched x xs (call x.exchange) (register xs) refl (register-Searched xs)
