-- ===== src/Process/Windows/Handles/Leaves.antt =====
-- Which handles a call leaves open.
use nunya_core.Common.{
  ℕ, ◌≤◌, ◌<◌, ◌≡◌, ◌∙◌, refl, sym, ap, Bool, true, false, Option, none, some, List, [], ◌∷◌, ◌++◌,
  contains, arith, ==_refl, append_assoc,
}
use nunya_core.Process.Windows.Handles.{
  Api, World, query_elevation, tick, with_handle, remove, close, closing, obtain, or_else, within,
  is_elevated, primary_token,
}

-- The handles `xs` are new and open, all else is as it was, and no call had a closed handle.
pub record Leaves (xs : List ℕ) (w v : World) : Type 0 where
  pub handles : v.handles ≡ xs ++ w.handles
  pub faults : v.faults ≡ w.faults
  pub later : w.next ≤ v.next
  pub kept : (h : ℕ) → h < w.next → v.elevated h ≡ w.elevated h

pub record IsOld (h : ℕ) (w : World) : Type 0 where
  pub open_ : contains w.handles h ≡ true
  pub below : h < w.next

pub same-Leaves : (w : World) → Leaves [] w w
same-Leaves w = record { handles = refl; faults = refl; later = omega arith; kept = λ h l. refl }

pub trans-Leaves : {xs : List ℕ} {u v w : World} → Leaves [] u v → Leaves xs v w → Leaves xs u w
trans-Leaves {xs} a b = record {
  handles = b.handles ∙ ap (◌++◌ xs) a.handles;
  faults = b.faults ∙ a.faults;
  later = omega (arith, a.later, b.later);
  kept = λ h l. b.kept h (omega (arith, a.later)) ∙ a.kept h l;
}

pub IsOld-Leaves : {h : ℕ} {w v : World} → Leaves [] w v → IsOld h w → IsOld h v
IsOld-Leaves {h} a o = record {
  open_ = ap (λ (l : List ℕ). contains l h) a.handles ∙ o.open_;
  below = omega (arith, a.later, o.below);
}

pub with_handle_eq : (h : ℕ) (w : World) → contains w.handles h ≡ true → with_handle h w ≡ w
unfolding with_handle
with_handle_eq h w e = rw e

pub tick-Leaves : (w : World) → Leaves [] w (tick w)
tick-Leaves w = record { handles = refl; faults = refl; later = omega arith; kept = λ h l. refl }

pub tick_after : {xs : List ℕ} {w u : World} → Leaves xs w u → Leaves xs w (tick u)
tick_after a = record { handles = a.handles; faults = a.faults; later = a.later; kept = a.kept }

contains-here : (xs : List ℕ) (h : ℕ) (ys : List ℕ) → contains (xs ++ (h ∷ ys)) h ≡ true
unfolding contains
contains-here [] h ys = ground (arith, ==_refl h)
contains-here (x ∷ xs) h ys = ground (arith, contains-here xs h ys)

remove-here :
    (xs : List ℕ) (h : ℕ) (ys : List ℕ)
    → contains xs h ≡ false
    → remove h (xs ++ (h ∷ ys)) ≡ xs ++ ys
unfolding contains remove
remove-here [] h ys e = ground (arith, ==_refl h)
remove-here (x ∷ xs) h ys e = ground (arith, remove-here xs h ys)

close_eq :
    (h : ℕ) (w : World)
    → contains w.handles h ≡ true
    → close h w ≡ record w { handles = remove h w.handles }
unfolding close
close_eq h w e = rw (with_handle_eq h w e) refl

-- A new handle is closed, whichever were opened after it.
pub close-Leaves :
    (xs ys : List ℕ) (h : ℕ) {w v : World}
    → contains xs h ≡ false
    → Leaves (xs ++ (h ∷ ys)) w v
    → Leaves (xs ++ ys) w (close h v)
close-Leaves xs ys h {w} {v} e a =
    let at : v.handles ≡ xs ++ (h ∷ (ys ++ w.handles)) =
      a.handles ∙ append_assoc xs (h ∷ ys) w.handles in
    rw (close_eq h v (ap (λ (l : List ℕ). contains l h) at ∙ contains-here xs h _)) (record {
      handles = ap (remove h) at ∙ remove-here xs h _ e ∙ sym (append_assoc xs ys w.handles);
      faults = a.faults;
      later = a.later;
      kept = a.kept;
    })

-- A handle or none, with what it leaves open; `down` says that the handle is of a token that is not
-- elevated.
pub record Obtained (down : Bool) (w : World) (t : ℕ) (v : World) : Type 0 where
  pub leaves : Leaves (t ∷ []) w v
  pub fresh : w.next ≤ t
  pub below : t < v.next
  pub lowered : down ≡ true → v.elevated t ≡ false

abbrev pub TokenPost : Bool → World → Option ℕ × World → Type 0
TokenPost down w (none, v) = Leaves [] w v
TokenPost down w (some t, v) = Obtained down w t v

pub obtain-TokenPost :
    (succeeds e down : Bool) (w : World)
    → (down ≡ true → e ≡ false)
    → TokenPost down w (obtain succeeds e w)
unfolding obtain
obtain-TokenPost false e down w h = tick-Leaves w
obtain-TokenPost true e down w h = record {
  leaves = record {
    handles = refl;
    faults = refl;
    later = omega arith;
    kept = λ n l. ground arith;
  };
  fresh = omega arith;
  below = omega arith;
  lowered = λ d. ground (arith, h d, ==_refl w.next);
}

pub trans-TokenPost :
    (down : Bool) {w v : World} (r : Option ℕ × World)
    → Leaves [] w v
    → TokenPost down v r
    → TokenPost down w r
trans-TokenPost down (none, u) a b = trans-Leaves a b
trans-TokenPost down (some t, u) a b = record {
  leaves = trans-Leaves a b.leaves;
  fresh = omega (arith, a.later, b.fresh);
  below = b.below;
  lowered = b.lowered;
}

pub or_else-TokenPost :
    (down : Bool) {w : World} (r : Option ℕ × World) (f : World → Option ℕ × World)
    → TokenPost down w r
    → ((v : World) → Leaves [] w v → TokenPost down v (f v))
    → TokenPost down w (or_else r f)
or_else-TokenPost down (none, v) f a k = trans-TokenPost down (f v) a (k v a)
or_else-TokenPost down (some t, v) f a k = a

close-next : (h : ℕ) (v : World) → (close h v).next ≡ v.next
unfolding close with_handle
close-next h v = ground arith

close-elevated : (h : ℕ) (v : World) (t : ℕ) → (close h v).elevated t ≡ v.elevated t
unfolding close with_handle
close-elevated h v t = ground arith

pub nest : {xs ys : List ℕ} {u v w : World} → Leaves ys u v → Leaves xs v w → Leaves (xs ++ ys) u w
nest {xs} {ys} {u} a b = record {
  handles = b.handles ∙ ap (◌++◌ xs) a.handles ∙ sym (append_assoc xs ys u.handles);
  faults = b.faults ∙ a.faults;
  later = omega (arith, a.later, b.later);
  kept = λ h l. b.kept h (omega (arith, a.later)) ∙ a.kept h l;
}

-- The handle of `m` is closed again after `f`.
closing-TokenPost :
    (down : Bool) {w u : World} (h : ℕ) (r : Option ℕ × World)
    → Obtained false w h u
    → TokenPost down u r
    → TokenPost down w (closing h r)
unfolding contains
closing-TokenPost down h (none, v) a b = close-Leaves [] [] h refl (nest a.leaves b)
closing-TokenPost down h (some t, v) a b = record {
  leaves = close-Leaves (t ∷ []) [] h (ground (arith, a.below, b.fresh)) (nest a.leaves b.leaves);
  fresh = omega (arith, a.leaves.later, b.fresh);
  below = rw (close-next h v) b.below;
  lowered = λ d. close-elevated h v t ∙ b.lowered d;
}

-- A handle that is open only while `f` runs.
pub within-TokenPost :
    (down : Bool) {w : World} (m : Option ℕ × World) (f : ℕ → World → Option ℕ × World)
    → TokenPost false w m
    → ((h : ℕ) (u : World) → Obtained false w h u → TokenPost down u (f h u))
    → TokenPost down w (within m f)
within-TokenPost down (none, v) f a k = a
within-TokenPost down (some h, u) f a k = closing-TokenPost down h (f h u) a (k h u a)

pub Obtained-IsOld : {down : Bool} {h : ℕ} {w u : World} → Obtained down w h u → IsOld h u
unfolding contains
Obtained-IsOld {down} {h} a = record {
  open_ = ap (λ (l : List ℕ). contains l h) a.leaves.handles ∙ ground (arith, ==_refl h);
  below = a.below;
}

pub forget_lowered : (w : World) (r : Option ℕ × World) → TokenPost true w r → TokenPost false w r
forget_lowered w (none, v) a = a
forget_lowered w (some t, v) a = record {
  leaves = a.leaves;
  fresh = a.fresh;
  below = a.below;
  lowered = λ d. cc;
}

-- A duplicate is as elevated as its source, and the query answers.
pub record Documented (api : Api) : Type 0 where
  pub copies : (e : Bool) (c : ℕ) → api.copy_elevated e c ≡ e
  pub answers : (c : ℕ) → api.succeeds query_elevation c ≡ true

module _ (api : Api) (doc : Documented api) (h : ℕ) (w : World) (old : IsOld h w) where
  pub is_elevated_eq : is_elevated api h w ≡ (w.elevated h, tick w)
  unfolding is_elevated
  is_elevated_eq = rw (doc.answers w.clock, with_handle_eq h w old.open_) refl

  pub primary_token-TokenPost :
      (down : Bool)
      → (down ≡ true → w.elevated h ≡ false)
      → TokenPost down w (primary_token api h w)
  unfolding primary_token
  primary_token-TokenPost down e =
      rw (with_handle_eq h w old.open_)
        (obtain-TokenPost _ _ down w (λ d. doc.copies (w.elevated h) w.clock ∙ e d))
