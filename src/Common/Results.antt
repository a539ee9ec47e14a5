-- ===== src/Common/Results.antt =====
-- A call that yields a value or an error of a type of the caller's, and do blocks of such calls.
use mathlib.Core.Path.{◌≡◌, refl, sym, ap, ◌∙◌}

pub data Try (E : Type 0) (A : Type 0) : Type 0 where
  fails : E → Try E A
  gives : A → Try E A

infixl 5 ◌>>=◌
abbrev pub ◌>>=◌ : {E A B : Type 0} → Try E A → (A → Try E B) → Try E B
◌>>=◌ {E} {A} {B} m f = elim m [ fails e ↦ fails e | gives a ↦ f a ]

-- The value that a chain's first call had, if the chain has one.
pub bind-eq-gives :
    {E A B : Type 0} (m : Try E A) (f : A → Try E B) {b : B}
    → (m >>= f) ≡ gives b
    → (a : A) × (m ≡ gives a) × (f a ≡ gives b)
bind-eq-gives (fails x) f e = cc
bind-eq-gives (gives a) f e = (a, refl, e)

value_or : {E A : Type 0} → A → Try E A → A
value_or a (fails e) = a
value_or a (gives b) = b

pub gives_cancel : {E A : Type 0} {m : Try E A} {a b : A} → m ≡ gives a → m ≡ gives b → a ≡ b
unfolding value_or
gives_cancel {E} {A} {m} {a} e f = sym (ap (value_or a) e) ∙ ap (value_or a) f
