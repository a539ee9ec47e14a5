-- ===== src/Rpc/Dashboard/Written.antt =====
-- What the loop over the files of an archive writes.
use nunya_core.Common.{
  ℕ, ◌+◌, ◌≡◌, ◌∙◌, refl, sym, ap, Bool, true, false, ◌&&◌, ◌||◌, Option, none, some, List, [], ◌∷◌,
  length, All, if◌then◌else◌, Bool-cases, inl, inr, arith, subst,
}
use nunya_core.Rpc.Dashboard.{
  add_file, eq_path, Entry, Tree, Calls, save_at, elements_of, all_empty, local_path, counted,
  extract_file, extract_all,
}
use nunya_core.Rpc.Dashboard.Inside.{IsName, PathPost, local_path-PathPost}

abbrev pub Files : Type 0
Files = List (List (List ℕ) × List ℕ)

abbrev pub before_rest : Option (List (List ℕ)) → List ℕ → Files → Files
before_rest none content rest = rest
before_rest (some path) content rest = (path, content) ∷ rest

-- The content that is written at a path last.
abbrev pub or_before : Option (List ℕ) → Option (List ℕ) → Option (List ℕ)
or_before none o = o
or_before (some content) o = some content

unfoldable pub last_write : List (List ℕ) → Files → Option (List ℕ)
unfolding eq_path
last_write p [] = none
last_write p ((path, content) ∷ files) =
    or_before (last_write p files) (if eq_path path p then some content else none)

-- The files of the archive, in order, each under its path.
unfoldable pub written : Bool → List Entry → Files
written trim [] = []
written trim (f ∷ files) =
    let rest = written trim files in
    if f.is_dir then rest else before_rest (local_path (elements_of trim f)) f.content rest

abbrev pub is_below : Option (List (List ℕ)) → Bool
is_below none = false
is_below (some []) = false
is_below (some (name ∷ path)) = true

abbrev pub is_trimmed : List (List ℕ) → Bool
is_trimmed [] = true
is_trimmed (e ∷ elements) = is_below (local_path (e ∷ elements))

unfoldable pub all_below : Bool → List Entry → Bool
all_below trim [] = true
all_below trim (f ∷ files) = (f.is_dir || is_trimmed (elements_of trim f)) && all_below trim files

abbrev pub ExtractPost : Bool → List Entry → ℕ × Tree → Option (ℕ × Tree) → Type 0
ExtractPost trim files r none = Unit
ExtractPost trim files r (some (n, t)) =
    ((p : List (List ℕ)) → t.files p ≡ or_before (last_write p (written trim files)) (r.1.files p))
    × (n ≡ r.0 + length (written trim files))
    × (t.owner ≡ r.1.owner)
    × (all_below trim files ≡ true)

-- One file, with its path.
abbrev FilePost : Bool → Option (List (List ℕ)) → Entry → ℕ × Tree → Option (ℕ × Tree) → Type 0
FilePost below path f r none = Unit
FilePost below path f r (some (n, t)) =
    ((p : List (List ℕ))
      → t.files p ≡ or_before (last_write p (before_rest path f.content [])) (r.1.files p))
    × (n ≡ r.0 + length (before_rest path f.content []))
    × (t.owner ≡ r.1.owner)
    × (below ≡ true)

pub or_before_empty : (a : Option (List ℕ)) → a ≡ or_before a none
or_before_empty none = refl
or_before_empty (some x) = refl

or_before_join :
    (a b c : Option (List ℕ)) → or_before a (or_before b c) ≡ or_before (or_before a b) c
or_before_join none b c = refl
or_before_join (some x) b c = refl

last_write-before_rest :
    (p : List (List ℕ)) (path : Option (List (List ℕ))) (content : List ℕ) (rest : Files)
    → last_write p (before_rest path content rest)
      ≡ or_before (last_write p rest) (last_write p (before_rest path content []))
unfolding last_write
last_write-before_rest p none content rest = or_before_empty (last_write p rest)
last_write-before_rest p (some path) content rest = refl

added :
    (path : List (List ℕ)) (content : List ℕ) (t : Tree) (p : List (List ℕ))
    → (add_file path content t).files p
      ≡ or_before (last_write p (before_rest (some path) content [])) (t.files p)
unfolding last_write
added path content t p = elim (Bool-cases (eq_path path p)) [
  | inl e ↦ rw e refl
  | inr e ↦ rw e refl
]

saved-FilePost :
    (a : Calls) (f : Entry) (path : Option (List (List ℕ))) (n : ℕ) (t : Tree)
    → FilePost (is_below path) path f (n, t) (counted n (save_at a n path f.content t))
saved-FilePost a f none n t = tt
saved-FilePost a f (some []) n t = tt
saved-FilePost a f (some (name ∷ path)) n t = elim (Bool-cases (a.make_parent n && a.extract n)) [
  | inl e ↦ rw (e, counted) (added (name ∷ path) f.content t, refl, refl, refl)
  | inr e ↦ rw (e, counted) tt
]

file-FilePost :
    (a : Calls) (f : Entry) (elements : List (List ℕ)) (r : ℕ × Tree)
    → FilePost (is_trimmed elements) (local_path elements) f r (extract_file a f elements r)
unfolding local_path all_empty
file-FilePost a f [] (n, t) = unfold last_write in ((λ p. refl), omega arith, refl, refl)
file-FilePost a f (e ∷ elements) (n, t) = saved-FilePost a f (local_path (e ∷ elements)) n t

pub none-extract :
    (a : Calls) (trim : Bool) (files : List Entry) → extract_all a trim files none ≡ none
unfolding extract_all
none-extract a trim [] = refl
none-extract a trim (f ∷ files) = refl

pub length-before_rest :
    (path : Option (List (List ℕ))) (content : List ℕ) (rest : Files)
    → length (before_rest path content rest) ≡ length (before_rest path content []) + length rest
length-before_rest none content rest = omega arith
length-before_rest (some path) content rest = omega arith

and_true : (x y : Bool) → x ≡ true → y ≡ true → (x && y) ≡ true
and_true x y e f = ground arith

-- The rest of the files, after one that made `s` of `r`.
then-ExtractPost :
    (trim : Bool) (f : Entry) (files : List Entry) (r s : ℕ × Tree) (out : Option (ℕ × Tree))
    → f.is_dir ≡ false
    → FilePost (is_trimmed (elements_of trim f)) (local_path (elements_of trim f)) f r (some s)
    → ExtractPost trim files s out
    → ExtractPost trim (f ∷ files) r out
unfolding written all_below
then-ExtractPost trim f files r s none e p q = tt
then-ExtractPost trim f files r s (some (n, t)) e p q = simp e (
  λ x.
      q.0 x
      ∙ ap (or_before (last_write x (written trim files))) (p.0 x)
      ∙ or_before_join (last_write x (written trim files)) _ (r.1.files x)
      ∙ ap (λ (o : Option (List ℕ)). or_before o (r.1.files x))
          (sym (
            last_write-before_rest x (local_path (elements_of trim f)) f.content
              (written trim files))),
  omega (
    arith,
    q.1,
    p.1,
    length-before_rest (local_path (elements_of trim f)) f.content (written trim files),
  ),
  q.2 ∙ p.2,
  and_true _ _ p.3 q.3,
)

dir-ExtractPost :
    (trim : Bool) (f : Entry) (files : List Entry) (r : ℕ × Tree) (out : Option (ℕ × Tree))
    → f.is_dir ≡ true
    → ExtractPost trim files r out
    → ExtractPost trim (f ∷ files) r out
unfolding written all_below
dir-ExtractPost trim f files r none e q = tt
dir-ExtractPost trim f files r (some (n, t)) e q = simp e q

rest-ExtractPost :
    (a : Calls) (trim : Bool) (f : Entry) (files : List Entry) (r : ℕ × Tree)
    (made : Option (ℕ × Tree))
    → ((s : ℕ × Tree) → ExtractPost trim files s (extract_all a trim files (some s)))
    → f.is_dir ≡ false
    → FilePost (is_trimmed (elements_of trim f)) (local_path (elements_of trim f)) f r made
    → ExtractPost trim (f ∷ files) r (extract_all a trim files made)
rest-ExtractPost a trim f files r none ih e p = rw (none-extract a trim files) tt
rest-ExtractPost a trim f files r (some s) ih e p =
    then-ExtractPost trim f files r s (extract_all a trim files (some s)) e p (ih s)

pub extract_all-ExtractPost :
    (a : Calls) (trim : Bool) (files : List Entry) (r : ℕ × Tree)
    → ExtractPost trim files r (extract_all a trim files (some r))
unfolding extract_all
extract_all-ExtractPost a trim [] r =
    unfold written all_below last_write in ((λ p. refl), omega arith, refl, refl)
extract_all-ExtractPost a trim (f ∷ files) r = elim (Bool-cases f.is_dir) [
  | inl e ↦
      subst
        (λ (b : Bool). ExtractPost trim (f ∷ files) r (
          extract_all a trim files (if b then some r else extract_file a f (elements_of trim f) r)))
        (sym e) (dir-ExtractPost trim f files r _ e (extract_all-ExtractPost a trim files r))
  | inr e ↦
      subst
        (λ (b : Bool). ExtractPost trim (f ∷ files) r (
          extract_all a trim files (if b then some r else extract_file a f (elements_of trim f) r)))
        (sym e)
        (rest-ExtractPost a trim f files r _ (extract_all-ExtractPost a trim files) e
          (file-FilePost a f (elements_of trim f) r))
]

-- No path goes outside.
abbrev pub AllInside : Files → Type 0
AllInside files = All (λ f. All IsName f.0) files

added-AllInside :
    (path : Option (List (List ℕ))) (content : List ℕ) (rest : Files)
    → PathPost path
    → AllInside rest
    → AllInside (before_rest path content rest)
added-AllInside none content rest p h = h
added-AllInside (some path) content rest p h = (p, h)

ite-AllInside :
    (b : Bool) (xs ys : Files) → AllInside xs → AllInside ys → AllInside (if b then xs else ys)
ite-AllInside true xs ys h k = h
ite-AllInside false xs ys h k = k

pub written-AllInside : (trim : Bool) (files : List Entry) → AllInside (written trim files)
unfolding written
written-AllInside trim [] = tt
written-AllInside trim (f ∷ files) = ite-AllInside f.is_dir _ _ (written-AllInside trim files) (
    added-AllInside (local_path (elements_of trim f)) f.content (written trim files)
      (local_path-PathPost (elements_of trim f)) (written-AllInside trim files))
