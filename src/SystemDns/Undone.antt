-- ===== src/SystemDns/Undone.antt =====
-- setSystemDNS, however often, and restoreSystemDNS afterwards.
use nunya_core.Common.{
  ℕ, zero, suc, ◌%◌, ◌^◌, ◌≡◌, ◌∙◌, sym, ap, subst, Bool, true, false, ◌||◌, some, List, [], ◌∷◌,
  ◌++◌, if◌then◌else◌, arith,
}
use nunya_core.SystemDns.Manager.{
  local_addr, Net, Scan, scan, without_local, has_mark, registry_dhcp, servers_dhcp, luid_dhcp,
  is_ifc_dns_dhcp, restore_scanned, restore_servers, restore_luid, restore_system_dns, mark,
  set_servers_of, set_servers, set_luid, set_system_dns,
}
use nunya_core.SystemDns.Lists.{
  v4s, v6s, unmarked, scan-unmarked, set_list, v4s-set, v6s-set_list, v4s-both, scan-set_list,
  has_mark-set_list, relisted,
}

module _ {S : Type 0} (net : Net S) (index l : ℕ) where
  -- An interface that stays, on which SetDNS succeeds: a list with an IPv4 address replaces the IPv4
  -- servers, and is the value in the registry afterwards.
  pub record IsSteady : Type 0 where
    pub named : (s : S) → net.luid s (index % 2 ^ 32) ≡ some l
    pub reads :
        (s : S) (servers before : List ℕ) (a : ℕ) (as_ : List ℕ)
        → v4s servers ≡ a ∷ as_
        → net.dns s l ≡ some before
        → net.dns (net.set_dns s l servers).1 l ≡ some (v4s servers ++ v6s before)
    pub registers :
        (s : S) (servers : List ℕ) (a : ℕ) (as_ : List ℕ)
        → v4s servers ≡ a ∷ as_
        → registry_dhcp (net.name_server (net.set_dns s l servers).1 l) ≡ false

  record IsMarked (d : Bool) (before : List ℕ) (s : S) : Type 0 where
    servers : net.dns s l ≡ some (set_list d before)
    manual : registry_dhcp (net.name_server s l) ≡ false

  -- setSystemDNS once more for each of `n`.
  unfoldable pub sets : ℕ → S → S
  sets zero s = s
  sets (suc n) s = sets n (set_system_dns net s index)

  -- After the restoring of `t`: the servers, or that a call with none has removed them.
  abbrev pub Restored : Bool → List ℕ → S → Type 0
  Restored true before t = restore_system_dns net t index ≡ (net.set_dns t l []).1
  Restored false before t =
      net.dns (restore_system_dns net t index) l ≡ some (v4s before ++ v6s before)

  module _ (steady : IsSteady) where
    -- What setSystemDNS does where it finds `r` in the list.
    set_call :
        (s : S) (before : List ℕ) (r : Scan)
        → net.dns s l ≡ some before
        → scan before ≡ r
        → set_system_dns net s index
          ≡ (net.set_dns s l (set_servers_of (is_ifc_dns_dhcp net s index) r)).1
    unfolding set_system_dns
    set_call s before r e q =
        ap (set_luid net s index) (steady.named s)
        ∙ ap (set_servers net s index l) e
        ∙ ap (λ (x : Scan). (net.set_dns s l (set_servers_of (is_ifc_dns_dhcp net s index) x)).1) q

    restore_call :
        (s : S) (before : List ℕ) (r : Scan)
        → net.dns s l ≡ some before
        → scan before ≡ r
        → restore_system_dns net s index ≡ restore_scanned net s l r
    unfolding restore_system_dns
    restore_call s before r e q =
        ap (restore_luid net s) (steady.named s)
        ∙ ap (restore_servers net s l) e
        ∙ ap (restore_scanned net s l) q

    dhcp_call :
        (s : S) (before : List ℕ)
        → net.dns s l ≡ some before
        → is_ifc_dns_dhcp net s index
          ≡ (if has_mark before then true else registry_dhcp (net.name_server s l))
    unfolding is_ifc_dns_dhcp
    dhcp_call s before e = ap (luid_dhcp net s) (steady.named s) ∙ ap (servers_dhcp net s l) e

    first-IsMarked :
        (s : S) (before : List ℕ)
        → net.dns s l ≡ some before
        → unmarked before ≡ true
        → IsMarked (is_ifc_dns_dhcp net s index) before (set_system_dns net s index)
    first-IsMarked s before e u =
        let d = is_ifc_dns_dhcp net s index in
        let given = (local_addr ∷ before) ++ (mark (d || false) ∷ []) in
        let shown : v4s given ≡ local_addr ∷ (v4s before ++ (mark (d || false) ∷ [])) =
          v4s-set (d || false) before in
        let same : (d || false) ≡ d = ground arith in
        subst (IsMarked d before)
          (sym (set_call s before _ e (scan-unmarked false false [] before u)))
          (record {
            servers =
                steady.reads s given before _ _ shown e
                ∙ ap (λ (x : List ℕ). some (x ++ v6s before)) shown
                ∙ ap (λ (b : Bool). some (set_list b before)) same;
            manual = steady.registers s given _ _ shown;
          })

    again-IsMarked :
        (s : S) (d : Bool) (before : List ℕ)
        → unmarked before ≡ true
        → IsMarked d before s
        → IsMarked d before (set_system_dns net s index)
    unfolding without_local v4s
    again-IsMarked s d before u i =
        let e = is_ifc_dns_dhcp net s index in
        let rest = v4s before ++ v6s before in
        let given = (local_addr ∷ rest) ++ (mark (e || d) ∷ []) in
        let same : (e || d) ≡ d =
          ground (arith, dhcp_call s _ i.servers, has_mark-set_list d before u, i.manual) in
        let shown : v4s given ≡ local_addr ∷ (v4s rest ++ (mark (e || d) ∷ [])) =
          v4s-set (e || d) rest in
        let now : v4s given ++ v6s (set_list d before) ≡ set_list d before =
          ap (λ (x : List ℕ). x ++ v6s (set_list d before)) shown
          ∙ relisted (e || d) d before same in
        subst (IsMarked d before) (sym (set_call s _ _ i.servers (scan-set_list d before u)))
          (record {
            servers = steady.reads s given _ _ _ shown i.servers ∙ ap some now;
            manual = steady.registers s given _ _ shown;
          })

    sets-IsMarked :
        (n : ℕ) (s : S) (d : Bool) (before : List ℕ)
        → unmarked before ≡ true
        → IsMarked d before s
        → IsMarked d before (sets n s)
    unfolding sets
    sets-IsMarked zero s d before u i = i
    sets-IsMarked (suc n) s d before u i =
        sets-IsMarked n (set_system_dns net s index) d before u (again-IsMarked s d before u i)

    set-Restored :
        (t : S) (d : Bool) (before : List ℕ) (a : ℕ) (as_ : List ℕ)
        → unmarked before ≡ true
        → v4s before ≡ a ∷ as_
        → IsMarked d before t
        → Restored d before t
    unfolding without_local
    set-Restored t true before a as_ u e i =
        restore_call t _ _ i.servers (scan-set_list true before u)
    set-Restored t false before a as_ u e i =
        ap (λ (x : S). net.dns x l) (restore_call t _ _ i.servers (scan-set_list false before u))
        ∙ steady.reads t (v4s before ++ v6s before) _ a as_ (v4s-both before ∙ e) i.servers
        ∙ ap (λ (x : List ℕ). some (x ++ v6s (set_list false before))) (v4s-both before)
        ∙ ap (λ (x : List ℕ). some (v4s before ++ x)) (v6s-set_list false before)

-- On an interface that stays, where each SetDNS with an IPv4 address takes effect, and that has an
-- IPv4 server and neither mark among its servers: after setSystemDNS, once or more often, its list
-- is the local address, its IPv4 servers and one mark, then its IPv6 servers. After a
-- restoreSystemDNS it is what it was, with the IPv4 servers first; or, if the interface had its
-- servers by DHCP as isIfcDNSDhcp answers, restoreSystemDNS makes a call that gives it none.
pub sets-Restored :
    {S : Type 0} (net : Net S) (index l : ℕ)
    → IsSteady net index l
    → (n : ℕ) (s : S) (before : List ℕ) (a : ℕ) (as_ : List ℕ) → net.dns s l ≡ some before
    → unmarked before ≡ true
    → v4s before ≡ a ∷ as_
    → (net.dns (sets net index l n (set_system_dns net s index)) l
        ≡ some (set_list (is_ifc_dns_dhcp net s index) before))
      × Restored net index l
          (is_ifc_dns_dhcp net s index)
          before
          (sets net index l n (set_system_dns net s index))
sets-Restored net index l steady n s before a as_ e u q =
    let i =
      sets-IsMarked net index l steady n (set_system_dns net s index) _ before u
        (first-IsMarked net index l steady s before e u) in
    (i.servers, set-Restored net index l steady _ _ before a as_ u q i)
