-- ===== src/SystemDns/Tests.antt =====
-- internal/boxdns at concrete inputs: three interfaces, each with its index for a LUID.
use nunya_core.Common.{
  ℕ, ◌≡◌, ◌==◌, if◌then◌else◌, refl, ap, some_cancel, ◌%◌, ◌^◌, true, false, none, some, List, [],
  ◌∷◌, ◌++◌, arith,
}
use nunya_core.SystemDns.Manager.{
  has_text_in, Net, Manager, set_system_dns, is_ifc_dns_dhcp, handle_system_dns, set_default_dns,
}
use nunya_core.SystemDns.Lists.{unmarked, v4s, v6s, set_list}
use nunya_core.SystemDns.Undone.{IsSteady, Restored, sets, sets-Restored}
use nunya_core.SystemDns.Left.{Apart, handles, between_stays_set}

abbrev Table : Type 0
Table = ℕ → List ℕ

-- SetDNS replaces the IPv4 servers.
abbrev table_net : Net Table
table_net = record {
  luid = λ s index. some index;
  dns = λ s l. some (s l);
  set_dns = λ s l servers. (true, λ n. if n == l then v4s servers ++ v6s (s l) else s n);
  name_server = λ s l. some (some (49 ∷ []));
}

IsSteady-table : IsSteady table_net 5 5
IsSteady-table = record {
  named = λ s. refl;
  reads = λ s servers before a as_ e q.
      ap (λ (x : List ℕ). some (v4s servers ++ v6s x)) (some_cancel q);
  registers = λ s servers a as_ e. unfold has_text_in in refl;
}

-- 192.0.2.1 and an IPv6 address.
abbrev two_servers : Table
two_servers n = 3221225985 ∷ 4294967297 ∷ []

sets-Restored_example :
    (table_net.dns (sets table_net 5 5 2 (set_system_dns table_net two_servers 5)) 5
      ≡ some (set_list (is_ifc_dns_dhcp table_net two_servers 5) (two_servers 5)))
    × Restored table_net 5 5
        (is_ifc_dns_dhcp table_net two_servers 5)
        (two_servers 5)
        (sets table_net 5 5 2 (set_system_dns table_net two_servers 5))
sets-Restored_example =
    sets-Restored table_net 5 5 IsSteady-table 2 two_servers (two_servers 5) 3221225985 [] refl
      (unfold unmarked in refl) (unfold v4s in refl)

abbrev cleared : Manager table_net
cleared = record { sys = two_servers; dns_is_set = false; last_ifc = none }

other_index : (j : ℕ) → (5 == (j % 2 ^ 32)) ≡ false → Apart table_net 5 j
other_index j n s m servers e = ground (arith, some_cancel e)

between_stays_set_example :
    table_net.dns
      (set_default_dns table_net
        (handles table_net
          (handle_system_dns table_net
            (set_default_dns table_net cleared (some 4) false).1
            (some 5))
          (7 ∷ 6 ∷ []))
        (some 6)
        true).1.sys
      5
    ≡ some (
        set_list
          (is_ifc_dns_dhcp table_net (set_system_dns table_net two_servers 4) 5)
          (two_servers 5))
between_stays_set_example =
    between_stays_set table_net 4 5 6 5 (7 ∷ 6 ∷ []) cleared (two_servers 5) IsSteady-table
      3221225985 [] (other_index 4 refl) (other_index 6 refl)
      (other_index 7 refl, (other_index 6 refl, tt)) refl (unfold unmarked in refl)
      (unfold v4s in refl)
