-- ===== src/Warp/Hosts/Clean.antt =====
-- The hosts that a registration tries.
use nunya_core.Common.{
  ℕ, ◌≡◌, refl, ap, sym, ◌∙◌, Bool, true, false, not, ◌&&◌, ◌||◌, List, [], ◌∷◌, ◌++◌, map, codes,
  eq_text, eq_text→eq, eq_text_refl, has_text, has_text-append, arith, Bool-cases, inl, inr, subst,
  ◌⊎◌,
}
use nunya_core.Warp.Hosts.{
  trim_left, trim_right, trim_prefix, ends_host, cut_path, is_empty, default_api_host, or_default,
  normal_host, add_host, normalize_loop, normalize_hosts,
}

-- Each text once.
unfoldable pub distinct_texts : List (List ℕ) → Bool
unfolding has_text
distinct_texts [] = true
distinct_texts (t ∷ texts) = not (has_text texts t) && distinct_texts texts

distinct_add :
    (texts : List (List ℕ)) (t : List ℕ)
    → distinct_texts texts ≡ true
    → has_text texts t ≡ false
    → distinct_texts (texts ++ (t ∷ [])) ≡ true
unfolding distinct_texts has_text
distinct_add [] t d h = refl
distinct_add (x ∷ texts) t d h = elim (Bool-cases (eq_text t x)) [
  | inl e ↦ let same : eq_text x t ≡ true = rw (eq_text→eq t x e) (eq_text_refl x) in cc
  | inr e ↦ ground (arith, distinct_add texts t, has_text-append texts (t ∷ []) x)
]

-- No part of a path, and not empty.
unfoldable pub is_host : List ℕ → Bool
is_host [] = true
is_host (c ∷ text) = not (ends_host c) && is_host text

is_host-cut_path : (text : List ℕ) → is_host (cut_path text) ≡ true
unfolding cut_path is_host
is_host-cut_path [] = refl
is_host-cut_path (c ∷ text) = ground (arith, is_host-cut_path text)

module _ (lower : ℕ → ℕ) (t : List ℕ) where
  -- One of the hosts has the normal form `t`.
  unfoldable pub asked : List (List ℕ) → Bool
  asked [] = false
  asked (h ∷ hosts) = eq_text (normal_host lower h) t || asked hosts

  has_text-add_host :
      (h : List ℕ) (result : List (List ℕ))
      → has_text (add_host lower h result) t
        ≡ (has_text result t || (not (is_empty t) && eq_text h t))
  unfolding has_text
  has_text-add_host h result = elim (Bool-cases (eq_text h t)) [
    | inl e ↦ ground (
      arith,
      ap (has_text result) (eq_text→eq h t e),
      ap is_empty (eq_text→eq h t e),
      has_text-append result (h ∷ []) t,
    )
    | inr e ↦ ground (arith, has_text-append result (h ∷ []) t)
  ]

  has_text-loop :
      (hosts result : List (List ℕ))
      → has_text (normalize_loop lower hosts result) t
        ≡ (has_text result t || (not (is_empty t) && asked hosts))
  unfolding normalize_loop asked
  has_text-loop [] result = ground arith
  has_text-loop (h ∷ hosts) result = ground (
    arith,
    has_text-loop hosts (add_host lower (normal_host lower h) result),
    has_text-add_host (normal_host lower h) result,
  )

  asked-host : (hosts : List (List ℕ)) → asked hosts ≡ true → is_host t ≡ true
  unfolding asked normal_host
  asked-host [] a = cc
  asked-host (h ∷ hosts) a = elim (Bool-cases (eq_text (normal_host lower h) t)) [
    | inl e ↦
        subst (λ (x : List ℕ). is_host x ≡ true) (eq_text→eq (normal_host lower h) t e)
          (is_host-cut_path (
            trim_prefix (codes "http://")
              (trim_prefix (codes "https://") (map lower (trim_right (trim_left h))))))
    | inr e ↦ asked-host hosts (ground (arith, a))
  ]

distinct_loop :
    (lower : ℕ → ℕ) (hosts result : List (List ℕ))
    → distinct_texts result ≡ true
    → distinct_texts (normalize_loop lower hosts result) ≡ true
unfolding normalize_loop
distinct_loop lower [] result d = d
distinct_loop lower (h ∷ hosts) result d =
    distinct_loop lower hosts (add_host lower (normal_host lower h) result)
      (ground (arith, distinct_add result (normal_host lower h)))

-- What the hosts that are tried say of the hosts that were given, at a text `t`.
abbrev pub HostsPost : (ℕ → ℕ) → List (List ℕ) → List ℕ → List (List ℕ) → Type 0
HostsPost lower hosts t [] = ⊥
HostsPost lower hosts t (r ∷ result) =
    (distinct_texts (r ∷ result) ≡ true)
    × (has_text (r ∷ result) t ≡ true → (is_host t ≡ true) × (is_empty t ≡ false))
    × (((not (is_empty t) && asked lower t hosts) ≡ true → has_text (r ∷ result) t ≡ true))
    × (has_text (r ∷ result) t ≡ true
        → (asked lower t hosts ≡ true)
          ⊎ ((t ≡ default_api_host)
              × ((u : List ℕ) → asked lower u hosts ≡ true → is_empty u ≡ true)))

default-HostsPost :
    (lower : ℕ → ℕ) (hosts : List (List ℕ)) (t : List ℕ) (result : List (List ℕ))
    → distinct_texts result ≡ true
    → ((u : List ℕ) → has_text result u ≡ (not (is_empty u) && asked lower u hosts))
    → HostsPost lower hosts t (or_default result)
unfolding has_text distinct_texts is_host
default-HostsPost lower hosts t [] d h = (
  refl,
  λ e. is_default (eq_text→eq default_api_host t (ground (arith, e))),
  λ e. ground (arith, h t),
  λ e. inr (sym (eq_text→eq default_api_host t (ground (arith, e))), λ u a. ground (arith, h u)),
)
  where
    is_default : default_api_host ≡ t → (is_host t ≡ true) × (is_empty t ≡ false)
    is_default e = subst (λ (x : List ℕ). (is_host x ≡ true) × (is_empty x ≡ false)) e (refl, refl)
default-HostsPost lower hosts t (r ∷ result) d h = (
  d,
  λ e. (asked-host lower t hosts (ground (arith, h t)), ground (arith, h t)),
  λ e. h t ∙ e,
  λ e. inl (ground (arith, h t)),
)

-- For every list of hosts: the hosts that a registration tries are at least one and each once, none is
-- empty or has a "/", "?" or "#"; each host given whose normal form is not empty is tried in that
-- form; and each that is tried is the normal form of one given, or is the default host, where no host
-- given has a normal form that is not empty.
pub normalize_hosts-HostsPost :
    (lower : ℕ → ℕ) (hosts : List (List ℕ)) (t : List ℕ)
    → HostsPost lower hosts t (normalize_hosts lower hosts)
unfolding normalize_hosts distinct_texts has_text
normalize_hosts-HostsPost lower hosts t =
    default-HostsPost lower hosts t (normalize_loop lower hosts [])
      (distinct_loop lower hosts [] refl) (λ u. has_text-loop lower u hosts [])
