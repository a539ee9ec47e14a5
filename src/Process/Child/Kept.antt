-- ===== src/Process/Child/Kept.antt =====
-- What childEnv and userEnv leave of an environment.
use nunya_core.Common.{
  ℕ, ◌≡◌, refl, ap, true, false, ◌&&◌, Option, none, some, List, [], ◌∷◌, ◌++◌, if◌then◌else◌,
  arith, inl, inr, Bool-cases, count_text, count_text-append, eq_text, eq_text→eq, eq_text_refl,
  is_prefix, codes, some_cancel, ◌∙◌, ==_refl, ==_iff, sym, has_text, is_some, contains, map,
}
use nunya_core.Process.Child.{
  user_names, upper, User, cut_name, has_secret_name, child_env, is_user_name, without_user,
  user_env,
}

module _ (v : List ℕ) where
  pub count_child_env :
      (parent : List (List ℕ))
      → count_text v (child_env parent)
        ≡ (if has_secret_name (cut_name v) then 0 else count_text v parent)
  unfolding child_env count_text
  count_child_env [] = ground arith
  count_child_env (kv ∷ parent) = elim (Bool-cases (eq_text kv v)) [
    | inl e ↦ ground (arith, count_child_env parent, ap cut_name (eq_text→eq kv v e))
    | inr e ↦ ground (arith, count_child_env parent)
  ]

  count_without_user :
      (env : List (List ℕ))
      → count_text v (without_user env)
        ≡ (if is_user_name (cut_name v) then 0 else count_text v env)
  unfolding without_user count_text
  count_without_user [] = ground arith
  count_without_user (kv ∷ env) = elim (Bool-cases (eq_text kv v)) [
    | inl e ↦ ground (arith, count_without_user env, ap cut_name (eq_text→eq kv v e))
    | inr e ↦ ground (arith, count_without_user env)
  ]

-- The variable of a name and a value.
abbrev pub variable : List ℕ → List ℕ → List ℕ
variable name value = name ++ (61 ∷ value)

pub cut_name_lem :
    (name value : List ℕ) → contains name 61 ≡ false → cut_name (variable name value) ≡ some name
unfolding cut_name contains
cut_name_lem [] value h = refl
cut_name_lem (c ∷ name) value h = ground (arith, cut_name_lem name value)

-- The name starts with NUNYA, in capitals or small letters.
abbrev pub IsSecret : List ℕ → Type 0
IsSecret name = (p : List ℕ) × (q : List ℕ) × (name ≡ p ++ q) × (map upper p ≡ codes "NUNYA")

module _ (f : ℕ → ℕ) where
  prefix_of : (p q : List ℕ) → is_prefix (map f p) (map f (p ++ q)) ≡ true
  unfolding is_prefix
  prefix_of [] q = refl
  prefix_of (c ∷ p) q = ground (arith, prefix_of p q, ==_refl (f c))

  prefix_cons :
      (x y : ℕ) (xs ys : List ℕ)
      → is_prefix (x ∷ xs) (y ∷ ys) ≡ true
      → (x ≡ y) × (is_prefix xs ys ≡ true)
  unfolding is_prefix
  prefix_cons x y xs ys h = ground (arith, ==_iff x y)

  prefix_split :
      (xs name : List ℕ)
      → is_prefix xs (map f name) ≡ true
      → (p : List ℕ) × (q : List ℕ) × (name ≡ p ++ q) × (map f p ≡ xs)
  unfolding is_prefix
  prefix_split [] name h = ([], name, refl, refl)
  prefix_split (x ∷ xs) [] h = cc
  prefix_split (x ∷ xs) (c ∷ name) h =
      let both = prefix_cons x (f c) xs (map f name) h in
      let (p, q, e, m) = prefix_split xs name both.1 in (c ∷ p, q, cc, cc)

pub is_secret : (name : List ℕ) → IsSecret name → is_prefix (codes "NUNYA") (map upper name) ≡ true
is_secret name (p, q, e, m) = rw (e, sym m) (prefix_of upper p q)

pub not_secret :
    (name : List ℕ) → ¬ IsSecret name → is_prefix (codes "NUNYA") (map upper name) ≡ false
not_secret name h = elim (Bool-cases (is_prefix (codes "NUNYA") (map upper name))) [
  | inl e ↦ absurd (h (prefix_split upper (codes "NUNYA") name e))
  | inr e ↦ e
]

-- The variables that userEnv sets.
unfoldable pub own_variables : User → List (List ℕ)
own_variables u =
    variable (codes "HOME") u.home_dir
    ∷ variable (codes "USER") u.username
    ∷ variable (codes "LOGNAME") u.username
    ∷ []

abbrev pub own_count : List ℕ → Option User → ℕ
own_count v none = 0
own_count v (some u) = count_text v (own_variables u)

other_variable :
    (k w name value : List ℕ)
    → contains k 61 ≡ false
    → contains name 61 ≡ false
    → eq_text k name ≡ false
    → eq_text (variable k w) (variable name value) ≡ false
other_variable k w name value hk h e =
    elim (Bool-cases (eq_text (variable k w) (variable name value))) [
      | inl y ↦
          let same : k ≡ name = some_cancel (
            sym (cut_name_lem k w hk)
            ∙ ap cut_name (eq_text→eq (variable k w) (variable name value) y)
            ∙ cut_name_lem name value h) in
          let yes_ : eq_text k name ≡ true = rw same (eq_text_refl name) in cc
      | inr z ↦ z
    ]

own_count_zero :
    (name value : List ℕ) (u : User)
    → contains name 61 ≡ false
    → has_text user_names name ≡ false
    → count_text (variable name value) (own_variables u) ≡ 0
unfolding own_variables has_text count_text contains
own_count_zero name value u h z = ground (
  arith,
  other_variable (codes "HOME") u.home_dir name value,
  other_variable (codes "USER") u.username name value,
  other_variable (codes "LOGNAME") u.username name value,
)

pub user_env_count :
    (name value : List ℕ) (u : Option User) (env : List (List ℕ))
    → contains name 61 ≡ false
    → count_text (variable name value) (user_env u env) ≡ (
        if is_some u && has_text user_names name
        then own_count (variable name value) u
        else count_text (variable name value) env)
unfolding own_variables
user_env_count name value none env h = refl
user_env_count name value (some u) env h = ground (
  arith,
  count_text-append (variable name value) (without_user env) (own_variables u),
  count_without_user (variable name value) env,
  ap is_user_name (cut_name_lem name value h),
  own_count_zero name value u h,
)
