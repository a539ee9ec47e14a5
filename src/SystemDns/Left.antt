-- ===== src/SystemDns/Left.antt =====
-- An interface that was the default one for a while, between two others, keeps the local address.
use nunya_core.Common.{
  ℕ, ◌%◌, ◌^◌, ◌≡◌, ◌∙◌, refl, ap, Bool, true, false, Option, none, some, List, [], ◌∷◌, All, arith,
}
use nunya_core.SystemDns.Manager.{
  Net, Scan, scan, Manager, restore_scanned, restored_servers, restore_servers, restore_luid,
  restore_system_dns, set_servers, set_luid, set_system_dns, update_ifc, restore_last,
  handle_system_dns, set_default_dns, is_ifc_dns_dhcp,
}
use nunya_core.SystemDns.Lists.{v4s, unmarked, set_list}
use nunya_core.SystemDns.Undone.{IsSteady, sets, sets-Restored}

module _ {S : Type 0} (net : Net S) where
  -- SetDNS on the interface `j` is not SetDNS on that with the LUID `l`.
  abbrev pub Apart : ℕ → ℕ → Type 0
  Apart l j =
      (s : S) (m : ℕ) (servers : List ℕ)
      → net.luid s (j % 2 ^ 32) ≡ some m
      → net.dns (net.set_dns s m servers).1 l ≡ net.dns s l

  -- The changes of the default interface, one after the other.
  unfoldable pub handles : Manager net → List ℕ → Manager net
  handles m [] = m
  handles m (j ∷ js) = handles (handle_system_dns net m (some j)) js

  module _ (l j : ℕ) (apart : Apart l j) (s : S) where
    restored_kept :
        (m : ℕ) (r : Scan)
        → net.luid s (j % 2 ^ 32) ≡ some m
        → net.dns (restore_scanned net s m r) l ≡ net.dns s l
    restored_kept m r e = ground (arith, apart s m (restored_servers r) e)

    restore_servers_kept :
        (m : ℕ) (o : Option (List ℕ))
        → net.luid s (j % 2 ^ 32) ≡ some m
        → net.dns (restore_servers net s m o) l ≡ net.dns s l
    restore_servers_kept m none e = refl
    restore_servers_kept m (some servers) e = restored_kept m (scan servers) e

    restore_luid_kept :
        (o : Option ℕ)
        → net.luid s (j % 2 ^ 32) ≡ o
        → net.dns (restore_luid net s o) l ≡ net.dns s l
    restore_luid_kept none e = refl
    restore_luid_kept (some m) e = restore_servers_kept m (net.dns s m) e

    restore_kept : net.dns (restore_system_dns net s j) l ≡ net.dns s l
    unfolding restore_system_dns
    restore_kept = restore_luid_kept (net.luid s (j % 2 ^ 32)) refl

    set_servers_kept :
        (m : ℕ) (o : Option (List ℕ))
        → net.luid s (j % 2 ^ 32) ≡ some m
        → net.dns (set_servers net s j m o) l ≡ net.dns s l
    set_servers_kept m none e = refl
    set_servers_kept m (some servers) e = apart s m _ e

    set_luid_kept :
        (o : Option ℕ) → net.luid s (j % 2 ^ 32) ≡ o → net.dns (set_luid net s j o) l ≡ net.dns s l
    set_luid_kept none e = refl
    set_luid_kept (some m) e = set_servers_kept m (net.dns s m) e

    set_kept : net.dns (set_system_dns net s j) l ≡ net.dns s l
    unfolding set_system_dns
    set_kept = set_luid_kept (net.luid s (j % 2 ^ 32)) refl

    update_kept : (on : Bool) → net.dns (update_ifc net on s j) l ≡ net.dns s l
    update_kept true = set_kept
    update_kept false = restore_kept

  last_kept :
      (l a j : ℕ) (s : S) → Apart l a → net.dns (restore_last net (some a) s j) l ≡ net.dns s l
  last_kept l a j s apart = ground (arith, restore_kept l a apart s)

  handle_kept :
      (l a j : ℕ) (m : Manager net)
      → Apart l a
      → Apart l j
      → m.last_ifc ≡ some a
      → (net.dns (handle_system_dns net m (some j)).sys l ≡ net.dns m.sys l)
        × ((handle_system_dns net m (some j)).last_ifc ≡ some a)
  unfolding handle_system_dns
  handle_kept l a j m x y e = (
    ap (λ (o : Option ℕ). net.dns (restore_last net o (update_ifc net m.dns_is_set m.sys j) j) l) e
        ∙ last_kept l a j _ x
        ∙ update_kept l j y m.sys m.dns_is_set,
    e,
  )

  handles_kept :
      (l a : ℕ) (js : List ℕ) (m : Manager net)
      → Apart l a
      → All (Apart l) js
      → m.last_ifc ≡ some a
      → net.dns (handles m js).sys l ≡ net.dns m.sys l
  unfolding handles
  handles_kept l a [] m x ys e = refl
  handles_kept l a (j ∷ js) m x ys e =
      let h = handle_kept l a j m x ys.0 e in
      handles_kept l a js (handle_system_dns net m (some j)) x ys.1 h.1 ∙ h.0

-- SetSystemDNS sets the default interface `a`; then `b` is the default one, then `js` are, one after
-- the other, and at the last, `c`, SetSystemDNS with `clear` is called. Where `a`, `js` and `c` are
-- other interfaces than `b`, which stays, has an IPv4 server and no mark before, and is set by
-- SetDNS: at the end `b` still has the local address first, and its mark.
pub between_stays_set :
    {S : Type 0} (net : Net S) (a b c l : ℕ) (js : List ℕ) (m : Manager net) (before : List ℕ)
    → IsSteady net b l
    → (first : ℕ) (others : List ℕ) → Apart net l a
    → Apart net l c
    → All (Apart net l) js
    → net.dns m.sys l ≡ some before
    → unmarked before ≡ true
    → v4s before ≡ first ∷ others
    → net.dns
        (set_default_dns net
          (handles net (handle_system_dns net (set_default_dns net m (some a) false).1 (some b)) js)
          (some c)
          true).1.sys
        l
      ≡ some (set_list (is_ifc_dns_dhcp net (set_system_dns net m.sys a) b) before)
unfolding handle_system_dns set_default_dns sets
between_stays_set net a b c l js m before steady first others x y zs e u q =
    let s = set_system_dns net m.sys a in
    let shown =
      sets-Restored net b l steady 0 s before first others (set_kept net l a x m.sys ∙ e) u q in
    restore_kept net l c y _
    ∙ handles_kept net l a js _ x zs refl
    ∙ last_kept net l a b (set_system_dns net s b) x
    ∙ shown.0
