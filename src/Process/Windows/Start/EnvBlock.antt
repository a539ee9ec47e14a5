-- ===== src/Process/Windows/Start/EnvBlock.antt =====
-- internal/process/process_windows.go: makeEnvBlock. A variable is a list of code points, a block one
-- of UTF-16 units.
use nunya_core.Common.{
  ℕ, ◌+◌, ◌-◌, ◌/◌, ◌%◌, ◌≡◌, ◌∙◌, refl, sym, ap, Bool, true, false, Option, none, some, List, [],
  ◌∷◌, ◌++◌, if◌then◌else◌, ltb, contains, arith, Bool-cases, inl, inr, map, append-nil,
  append_assoc, ◌||◌, zero, suc, length, ◌≤◌, length-append,
}

-- utf16.AppendRune.
unfoldable pub utf16 : List ℕ → List ℕ
utf16 [] = []
utf16 (c ∷ text) =
    let rest = utf16 text in
    if ltb c 65536
    then c ∷ rest
    else (55296 + (c - 65536) / 1024) ∷ (56320 + (c - 65536) % 1024) ∷ rest

-- windows.UTF16FromString, with the NUL at its end.
unfoldable pub utf16_from_string : List ℕ → Option (List ℕ)
unfolding utf16
utf16_from_string text = if contains text 0 then none else some (utf16 text ++ (0 ∷ []))

abbrev pub add_variable : Option (List ℕ) → Option (List ℕ) → Option (List ℕ)
add_variable none rest = none
add_variable (some u) none = none
add_variable (some u) (some block) = some (u ++ block)

-- The loop over the variables; an empty one is left out.
unfoldable pub env_units : List (List ℕ) → Option (List ℕ)
env_units [] = some []
env_units ([] ∷ env) = env_units env
env_units ((c ∷ text) ∷ env) = add_variable (utf16_from_string (c ∷ text)) (env_units env)

abbrev pub terminated : Option (List ℕ) → Option (List ℕ)
terminated none = none
terminated (some []) = some (0 ∷ 0 ∷ [])
terminated (some (u ∷ units)) = some ((u ∷ units) ++ (0 ∷ []))

unfoldable pub make_env_block : List (List ℕ) → Option (List ℕ)
unfolding utf16_from_string env_units contains
make_env_block env = terminated (env_units env)

-- A reader of a block, written apart: texts that each end with a NUL, up to an empty one.
pub with_text : List ℕ → Option (List (List ℕ)) → Option (List (List ℕ))
with_text t none = none
with_text t (some ts) = some (t ∷ ts)

unfoldable pub read_block : List ℕ → List ℕ → Option (List (List ℕ))
unfolding with_text
read_block text [] = none
read_block [] (zero ∷ units) = some []
read_block (t ∷ text) (zero ∷ units) = with_text (t ∷ text) (read_block [] units)
read_block text (suc u ∷ units) = read_block (text ++ (suc u ∷ [])) units

unfoldable pub filled : List (List ℕ) → List (List ℕ)
filled [] = []
filled ([] ∷ env) = filled env
filled ((c ∷ text) ∷ env) = (c ∷ text) ∷ filled env

unfoldable pub has_nul : List (List ℕ) → Bool
unfolding contains
has_nul [] = false
has_nul (text ∷ env) = contains text 0 || has_nul env

utf16_nonzero : (text : List ℕ) → contains (utf16 text) 0 ≡ contains text 0
unfolding utf16 contains
utf16_nonzero [] = refl
utf16_nonzero (c ∷ text) = ground (arith, utf16_nonzero text)

read_text :
    (t : ℕ) (text units rest : List ℕ)
    → contains units 0 ≡ false
    → read_block (t ∷ text) (units ++ (0 ∷ rest))
      ≡ with_text ((t ∷ text) ++ units) (read_block [] rest)
unfolding contains read_block
read_text t text [] rest e =
    ap (λ l. with_text (t ∷ l) (read_block [] rest)) (sym (append-nil text))
read_text t text (zero ∷ units) rest e = cc
read_text t text (suc u ∷ units) rest e =
    read_text t (text ++ (suc u ∷ [])) units rest (ground arith)
    ∙ ap (λ l. with_text (t ∷ l) (read_block [] rest)) (append_assoc text (suc u ∷ []) units)

read_first :
    (u : ℕ) (units rest : List ℕ)
    → contains (u ∷ units) 0 ≡ false
    → read_block [] ((u ∷ units) ++ (0 ∷ rest)) ≡ with_text (u ∷ units) (read_block [] rest)
unfolding contains
read_first zero units rest e = cc
read_first (suc u) units rest e =
    unfold read_block in read_text (suc u) [] units rest (ground arith)

read_encoded :
    (c : ℕ) (text rest : List ℕ)
    → contains (c ∷ text) 0 ≡ false
    → read_block [] (utf16 (c ∷ text) ++ (0 ∷ rest))
      ≡ with_text (utf16 (c ∷ text)) (read_block [] rest)
unfolding utf16 contains
read_encoded c text rest e = elim (Bool-cases (ltb c 65536)) [
  | inl l ↦ rw l (read_first c (utf16 text) rest (ground (arith, utf16_nonzero text)))
  | inr l ↦ rw l (read_first _ _ rest (ground (arith, utf16_nonzero text)))
]

abbrev UnitsPost : List (List ℕ) → Option (List ℕ) → Type 0
UnitsPost env none = has_nul env ≡ true
UnitsPost env (some units) =
    (has_nul env ≡ false)
    × ((rest : List ℕ) → read_block [] (units ++ (0 ∷ rest)) ≡ some (map utf16 (filled env)))

variable-UnitsPost :
    (c : ℕ) (text : List ℕ) (env : List (List ℕ)) (r : Option (List ℕ)) (u : Option (List ℕ))
    → contains (c ∷ text) 0 ≡ false
    → u ≡ some (utf16 (c ∷ text) ++ (0 ∷ []))
    → UnitsPost env r
    → UnitsPost ((c ∷ text) ∷ env) (add_variable u r)
unfolding has_nul filled
variable-UnitsPost c text env none u e q p = rw q (ground (arith, p))
variable-UnitsPost c text env (some units) u e q p = rw q (
  ground (arith, p.0),
  λ rest.
      ap (read_block []) (
        append_assoc (utf16 (c ∷ text) ++ (0 ∷ [])) units (0 ∷ rest)
        ∙ append_assoc (utf16 (c ∷ text)) (0 ∷ []) (units ++ (0 ∷ rest)))
      ∙ read_encoded c text (units ++ (0 ∷ rest)) e
      ∙ ap (with_text (utf16 (c ∷ text))) (p.1 rest)
      ∙ unfold with_text in refl,
)

env_units-UnitsPost : (env : List (List ℕ)) → UnitsPost env (env_units env)
unfolding env_units has_nul filled read_block
env_units-UnitsPost [] = (refl, λ rest. refl)
env_units-UnitsPost ([] ∷ env) = unfold contains in env_units-UnitsPost env
env_units-UnitsPost ((c ∷ text) ∷ env) = elim (Bool-cases (contains (c ∷ text) 0)) [
  | inl e ↦ unfold utf16_from_string in rw e (rw e refl)
  | inr e ↦
      variable-UnitsPost c text env (env_units env) (utf16_from_string (c ∷ text)) e
        (unfold utf16_from_string in rw e refl) (env_units-UnitsPost env)
]

abbrev pub BlockPost : List (List ℕ) → Option (List ℕ) → Type 0
BlockPost env none = has_nul env ≡ true
BlockPost env (some block) =
    (has_nul env ≡ false)
    × (read_block [] block ≡ some (map utf16 (filled env)))
    × (2 ≤ length block)

terminated-BlockPost :
    (env : List (List ℕ)) (r : Option (List ℕ)) → UnitsPost env r → BlockPost env (terminated r)
terminated-BlockPost env none p = p
terminated-BlockPost env (some []) p = (p.0, p.1 (0 ∷ []), omega arith)
terminated-BlockPost env (some (u ∷ units)) p =
    (p.0, p.1 [], omega (arith, length-append units (0 ∷ [])))

-- makeEnvBlock refuses exactly an environment with a NUL in a variable. Otherwise a reader that
-- takes texts up to a NUL each, until an empty one, finds in the block the variables that are not
-- empty, each in UTF-16, in order, and a terminator; and the block has two units at least.
pub make_env_block-BlockPost : (env : List (List ℕ)) → BlockPost env (make_env_block env)
unfolding make_env_block
make_env_block-BlockPost env = terminated-BlockPost env (env_units env) (env_units-UnitsPost env)
