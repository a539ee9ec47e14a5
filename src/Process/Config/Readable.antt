-- ===== src/Process/Config/Readable.antt =====
-- Who can read the config, and that it goes away.
use nunya_core.Common.{
  ℕ, ◌≡◌, ◌∙◌, subst, [], contains, ◌<◌, ◌^◌, refl, Bool, true, false, not, ◌&&◌, Option, none,
  some, List, ◌==◌, if◌then◌else◌, arith, is_handle, Bool-cases, inl, inr,
}
use nunya_core.Process.Child.{System, Cmd, start_child, child_uid}
use nunya_core.Process.Child.Dropped.{ChildPost, start_child-ChildPost}
use nunya_core.Process.Config.{
  set_mode, write_config, own_file, elevated_dir, give_away, write_string, Files, Calls, remove_all,
  create_secure_config_file, finish_config, fill_config, create_extra_config,
}

-- At the path `n`: one to come is not there, and nothing is in it.
pub record IsNew (n : ℕ) (fs : Files) : Type 0 where
  pub below : fs.exists_ n ≡ true → n < fs.next
  pub outside : fs.exists_ n ≡ true → is_handle fs.next (fs.parent n) ≡ false

-- The paths that were there are there, and of new ones only such that a RemoveAll leaves.
record Cleaned (n : ℕ) (leaves : ℕ → Bool) (fs g : Files) : Type 0 where
  kept : (fs.exists_ n && not (g.exists_ n)) ≡ false
  left : (g.exists_ n && (not (fs.exists_ n) && not (leaves n))) ≡ false

-- The new paths are a file, and outside of it or around it what is to be cleaned up.
record Made (n : ℕ) (s : System) (fs : Files) (f cleanup : ℕ) (g : Files) : Type 0 where
  there : g.exists_ f ≡ true
  undone : (leaves : ℕ → Bool) → Cleaned n leaves fs (remove_all leaves cleanup g)
  owned : g.owner f ≡ s.euid
  secret : g.mode f ≡ 384

abbrev SecurePost : ℕ → System → (ℕ → Bool) → Files → Option (ℕ × ℕ) × Files → Type 0
SecurePost n s leaves fs (none, g) = Cleaned n leaves fs g
SecurePost n s leaves fs (some (f, cleanup), g) = Made n s fs f cleanup g

unchanged : (n : ℕ) (leaves : ℕ → Bool) (fs : Files) → Cleaned n leaves fs fs
unchanged n leaves fs = record { kept = ground arith; left = ground arith }

own-SecurePost :
    (n : ℕ) (s : System) (leaves : ℕ → Bool) (fs : Files) (made : Bool)
    → IsNew n fs
    → SecurePost n s leaves fs (own_file s fs made)
own-SecurePost n s leaves fs false i = unchanged n leaves fs
own-SecurePost n s leaves fs true i = record {
  there = ground arith;
  undone = λ leaves. record {
    kept = ground (arith, i.below, i.outside);
    left = ground (arith, i.below, i.outside);
  };
  owned = ground arith;
  secret = ground arith;
}

elevated-SecurePost :
    (n : ℕ) (s : System) (a : Calls) (fs : Files) (dir file : Bool)
    → IsNew n fs
    → SecurePost n s a.leaves fs (elevated_dir s (record a { create_temp = file }) fs dir)
elevated-SecurePost n s a fs false file i = unchanged n a.leaves fs
elevated-SecurePost n s a fs true false i = record {
  kept = ground (arith, i.below, i.outside);
  left = ground (arith, i.below, i.outside);
}
elevated-SecurePost n s a fs true true i = record {
  there = ground arith;
  undone = λ leaves. record {
    kept = ground (arith, i.below, i.outside);
    left = ground (arith, i.below, i.outside);
  };
  owned = ground arith;
  secret = ground arith;
}

secure-SecurePost :
    (n : ℕ) (s : System) (a : Calls) (fs : Files)
    → IsNew n fs
    → SecurePost n s a.leaves fs (create_secure_config_file s a fs)
secure-SecurePost n s a fs i = elim (Bool-cases (s.euid == 0)) [
  | inl e ↦ rw e (elevated-SecurePost n s a fs a.mkdir_temp a.create_temp i)
  | inr e ↦ rw e (own-SecurePost n s a.leaves fs a.create_temp i)
]

-- The user that the child runs as owns the file.
abbrev pub reader : System → ℕ
reader s = if s.euid == 0 then s.ruid else s.euid

abbrev pub ConfigPost : ℕ → System → (ℕ → Bool) → List ℕ → Files → Option (ℕ × ℕ) × Files → Type 0
ConfigPost n s leaves content fs (none, g) =
    ((fs.exists_ n && not (g.exists_ n)) ≡ false)
    × ((g.exists_ n && (not (fs.exists_ n) && not (leaves n))) ≡ false)
ConfigPost n s leaves content fs (some (f, cleanup), g) =
    (g.exists_ f ≡ true)
    × (g.content f ≡ content)
    × (g.owner f ≡ reader s)
    × (g.mode f ≡ 384)
    × ((remove_all (λ m. false) cleanup g).exists_ n ≡ fs.exists_ n)

module _ (n : ℕ) (s : System) (a : Calls) (content : List ℕ) (fs : Files) (f cleanup : ℕ) where
  cleared :
      (leaves : ℕ → Bool) (g : Files)
      → Made n s fs f cleanup g
      → ConfigPost n s leaves content fs (none, remove_all leaves cleanup g)
  cleared leaves g m = let c = m.undone leaves in (c.kept, c.left)

  undone_whole :
      {g : Files}
      → Made n s fs f cleanup g
      → (remove_all (λ m. false) cleanup g).exists_ n ≡ fs.exists_ n
  undone_whole m = let c = m.undone (λ k. false) in ground (arith, c.kept, c.left)

  given-ConfigPost :
      (g : Files) (chown chmod close : Bool)
      → (s.euid == 0) ≡ true
      → Made n s fs f cleanup g
      → ConfigPost n s a.leaves content fs (
          finish_config a.leaves close f cleanup
            (give_away s (record a { chmod = chmod }) f (write_string f content g) chown))
  given-ConfigPost g false chmod close e m = cleared a.leaves g m
  given-ConfigPost g true false close e m = cleared a.leaves g m
  given-ConfigPost g true true false e m = cleared a.leaves g m
  given-ConfigPost g true true true e m =
      (m.there, ground arith, ground arith, ground arith, undone_whole m)

  kept-ConfigPost :
      (g : Files) (close : Bool)
      → s.euid ≡ reader s
      → Made n s fs f cleanup g
      → ConfigPost n s a.leaves content fs
          (finish_config a.leaves close f cleanup (true, write_string f content g))
  kept-ConfigPost g false e m = cleared a.leaves g m
  kept-ConfigPost g true e m = (m.there, ground arith, m.owned ∙ e, m.secret, undone_whole m)

  own-ConfigPost :
      (g : Files) (chmod close : Bool)
      → (s.euid == 0) ≡ false
      → Made n s fs f cleanup g
      → ConfigPost n s a.leaves content fs (
          finish_config a.leaves close f cleanup
            (chmod, set_mode chmod f 384 (write_string f content g)))
  own-ConfigPost g false close e m = cleared a.leaves g m
  own-ConfigPost g true false e m = cleared a.leaves g m
  own-ConfigPost g true true e m =
      (m.there, ground arith, ground (arith, m.owned), ground arith, undone_whole m)

  written-ConfigPost :
      (g : Files) (written : Bool)
      → Made n s fs f cleanup g
      → ConfigPost n s a.leaves content fs (write_config s a content f cleanup g written)
  written-ConfigPost g false m = cleared a.leaves g m
  written-ConfigPost g true m = elim (Bool-cases (s.euid == 0)) [
    | inl e ↦ elim (Bool-cases (s.ruid == 0)) [
      | inl z ↦ simp (e, z) (kept-ConfigPost g a.close (ground arith) m)
      | inr z ↦ simp (e, z) (given-ConfigPost g a.chown a.chmod a.close e m)
    ]
    | inr e ↦ simp e (own-ConfigPost g a.chmod a.close e m)
  ]

filled-ConfigPost :
    (n : ℕ) (s : System) (a : Calls) (content : List ℕ) (fs : Files) (r : Option (ℕ × ℕ) × Files)
    → SecurePost n s a.leaves fs r
    → ConfigPost n s a.leaves content fs (fill_config s a content r)
filled-ConfigPost n s a content fs (none, g) p = (p.kept, p.left)
filled-ConfigPost n s a content fs (some (f, cleanup), g) m =
    written-ConfigPost n s a content fs f cleanup g a.write m

-- For every answer of the calls, where the next path is not there and holds nothing: after a
-- CreateExtraConfig that fails the paths that were there are there, and a new one only if its
-- RemoveAll leaves it; after one that succeeds the config has the content, mode 0600 and an owner,
-- who is the user that every child of startChild runs as (with a real user id that fits 32 bits),
-- and a RemoveAll of the cleanup path that succeeds leaves exactly the paths that were there.
pub create_extra_config-ConfigPost :
    (n : ℕ) (s : System) (a : Calls) (content : List ℕ) (fs : Files) (starts : Bool)
    → IsNew n fs
    → s.ruid < 2 ^ 32
    → ConfigPost n s a.leaves content fs (create_extra_config s a content fs)
      × ((cmd : Cmd) → start_child s starts ≡ some cmd → child_uid s cmd ≡ reader s)
unfolding create_extra_config contains
create_extra_config-ConfigPost n s a content fs starts i r = (
  filled-ConfigPost n s a content fs (create_secure_config_file s a fs)
      (secure-SecurePost n s a fs i),
  λ cmd e. (subst (ChildPost s starts [] []) e (start_child-ChildPost s starts [] [] r refl)).1,
)
