-- ===== src/Warp/Hosts.antt =====
-- internal/warp/api.go: normalizeHosts. A text is a list of code points; `lower` is what
-- unicode.ToLower makes of one.
pub mod Clean
use nunya_core.Common.{
  ℕ, ◌≡◌, ◌≢◌, refl, ap, sym, ◌∙◌, Bool, true, false, not, ◌&&◌, ◌||◌, List, [], ◌∷◌, ◌++◌, ◌==◌,
  if◌then◌else◌, leb, map, codes, is_prefix, eq_text, eq_text→eq, eq_text_refl, has_text,
  has_text-append, drop, length, arith, Bool-cases, inl, inr, All, All-append,
}

-- unicode.IsSpace
abbrev pub is_space : ℕ → Bool
is_space c =
    (leb 9 c && leb c 13)
    || c == 32
    || c == 133
    || c == 160
    || c == 5760
    || (leb 8192 c && leb c 8202)
    || c == 8232
    || c == 8233
    || c == 8239
    || c == 8287
    || c == 12288

unfoldable pub trim_left : List ℕ → List ℕ
trim_left [] = []
trim_left (c ∷ text) = let rest = trim_left text in if is_space c then rest else c ∷ text

abbrev pub or_space : ℕ → List ℕ → List ℕ
or_space c [] = if is_space c then [] else c ∷ []
or_space c (d ∷ rest) = c ∷ d ∷ rest

unfoldable pub trim_right : List ℕ → List ℕ
trim_right [] = []
trim_right (c ∷ text) = or_space c (trim_right text)

abbrev pub trim_prefix : List ℕ → List ℕ → List ℕ
trim_prefix prefix text = if is_prefix prefix text then drop (length prefix) text else text

-- "/", "?" and "#".
abbrev pub ends_host : ℕ → Bool
ends_host c = c == 47 || (c == 63 || c == 35)

unfoldable pub cut_path : List ℕ → List ℕ
cut_path [] = []
cut_path (c ∷ text) = let rest = cut_path text in if ends_host c then [] else c ∷ rest

abbrev pub is_empty : List ℕ → Bool
is_empty [] = true
is_empty (c ∷ text) = false

abbrev pub default_api_host : List ℕ
default_api_host = codes "api.cloudflareclient.com"

abbrev pub or_default : List (List ℕ) → List (List ℕ)
or_default [] = default_api_host ∷ []
or_default (h ∷ result) = h ∷ result

module _ (lower : ℕ → ℕ) where
  unfoldable pub normal_host : List ℕ → List ℕ
  unfolding cut_path is_prefix trim_left trim_right
  normal_host host = cut_path (
      trim_prefix (codes "http://")
        (trim_prefix (codes "https://") (map lower (trim_right (trim_left host)))))

  abbrev pub add_host : List ℕ → List (List ℕ) → List (List ℕ)
  add_host host result =
      if not (is_empty host) && not (has_text result host) then result ++ (host ∷ []) else result

  unfoldable pub normalize_loop : List (List ℕ) → List (List ℕ) → List (List ℕ)
  unfolding normal_host has_text
  normalize_loop [] result = result
  normalize_loop (host ∷ hosts) result = normalize_loop hosts (add_host (normal_host host) result)

  unfoldable pub normalize_hosts : List (List ℕ) → List (List ℕ)
  unfolding normalize_loop
  normalize_hosts hosts = or_default (normalize_loop hosts [])
