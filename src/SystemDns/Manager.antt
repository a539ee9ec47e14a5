-- ===== src/SystemDns/Manager.antt =====
-- internal/boxdns/dns_manager_windows.go, with SetSystemDNS of internal/rpc/systemdns_windows.go. An
-- IPv4 address is its number, an IPv6 address one from 2^32 on. What internal/winipcfg and the
-- registry answer and do is the record Net on a state of the system; a log line is left out. The
-- monitor, which every DnsManager has, yields the default interface. A nil DnsManager, for which the
-- methods only log or return an error, is left out.
use nunya_core.Common.{
  ℕ, ◌%◌, ◌^◌, Bool, true, false, not, ◌&&◌, ◌||◌, Option, none, some, List, [], ◌∷◌, ◌++◌, ◌==◌,
  if◌then◌else◌, leb,
}

-- 127.1.1.1, 127.1.2.3 and 127.3.2.1.
abbrev pub local_addr : ℕ
local_addr = 2130772225

abbrev pub dhcp_mark_addr : ℕ
dhcp_mark_addr = 2130772483

abbrev pub set_mark_addr : ℕ
set_mark_addr = 2130903553

-- By index the LUID, by LUID the servers and, where the registry has it, the value NameServer, with
-- its text if there is one.
pub record Net (S : Type 0) : Type 0 where
  pub luid : S → ℕ → Option ℕ
  pub dns : S → ℕ → Option (List ℕ)
  pub set_dns : S → ℕ → List ℕ → Bool × S
  pub name_server : S → ℕ → Option (Option (List ℕ))

pub record Scan : Type 0 where
  pub is_dhcp : Bool
  pub was_set : Bool
  pub servers : List ℕ

-- One round of the loop over the servers.
unfoldable pub scan_one : Scan → ℕ → Scan
scan_one r server =
    if server == set_mark_addr || server == dhcp_mark_addr
    then record r { is_dhcp = server == dhcp_mark_addr; was_set = true }
    else record r { servers = r.servers ++ (server ∷ []) }

unfoldable pub scan_from : Scan → List ℕ → Scan
scan_from r [] = r
scan_from r (server ∷ servers) = scan_from (scan_one r server) servers

abbrev pub scan : List ℕ → Scan
scan servers = scan_from (record { is_dhcp = false; was_set = false; servers = [] }) servers

unfoldable pub without_local : List ℕ → List ℕ
without_local [] = []
without_local (a ∷ servers) = if a == local_addr then servers else a ∷ servers

-- Whether strings.TrimSpace leaves something of an ASCII text.
unfoldable pub has_text_in : List ℕ → Bool
has_text_in [] = false
has_text_in (c ∷ text) = not (c == 32 || leb 9 c && leb c 13) || has_text_in text

unfoldable pub has_mark : List ℕ → Bool
has_mark [] = false
has_mark (server ∷ servers) = server == dhcp_mark_addr || has_mark servers

abbrev pub is_manual : Option (List ℕ) → Bool
is_manual none = false
is_manual (some text) = has_text_in text

-- isIfcDNSDhcp from the registry on, from the servers on, and whole; an error counts as `false`.
abbrev pub registry_dhcp : Option (Option (List ℕ)) → Bool
registry_dhcp none = false
registry_dhcp (some value) = not (is_manual value)

abbrev pub restored_servers : Scan → List ℕ
restored_servers r = if r.is_dhcp then [] else without_local r.servers

abbrev pub mark : Bool → ℕ
mark true = dhcp_mark_addr
mark false = set_mark_addr

abbrev pub set_servers_of : Bool → Scan → List ℕ
set_servers_of dhcp r =
    (local_addr ∷ (if r.was_set then without_local r.servers else r.servers))
    ++ (mark (dhcp || r.is_dhcp) ∷ [])

module _ {S : Type 0} (net : Net S) where
  abbrev pub servers_dhcp : S → ℕ → Option (List ℕ) → Bool
  servers_dhcp s l none = false
  servers_dhcp s l (some servers) =
      if has_mark servers then true else registry_dhcp (net.name_server s l)

  abbrev pub luid_dhcp : S → Option ℕ → Bool
  luid_dhcp s none = false
  luid_dhcp s (some l) = servers_dhcp s l (net.dns s l)

  unfoldable pub is_ifc_dns_dhcp : S → ℕ → Bool
  unfolding has_text_in has_mark
  is_ifc_dns_dhcp s index = luid_dhcp s (net.luid s (index % 2 ^ 32))

  abbrev pub restore_scanned : S → ℕ → Scan → S
  restore_scanned s l r = if r.was_set then (net.set_dns s l (restored_servers r)).1 else s

  abbrev pub restore_servers : S → ℕ → Option (List ℕ) → S
  restore_servers s l none = s
  restore_servers s l (some servers) = restore_scanned s l (scan servers)

  abbrev pub restore_luid : S → Option ℕ → S
  restore_luid s none = s
  restore_luid s (some l) = restore_servers s l (net.dns s l)

  unfoldable pub restore_system_dns : S → ℕ → S
  unfolding scan_one scan_from without_local
  restore_system_dns s index = restore_luid s (net.luid s (index % 2 ^ 32))

  abbrev pub set_servers : S → ℕ → ℕ → Option (List ℕ) → S
  set_servers s index l none = s
  set_servers s index l (some servers) =
      (net.set_dns s l (set_servers_of (is_ifc_dns_dhcp s index) (scan servers))).1

  abbrev pub set_luid : S → ℕ → Option ℕ → S
  set_luid s index none = s
  set_luid s index (some l) = set_servers s index l (net.dns s l)

  unfoldable pub set_system_dns : S → ℕ → S
  unfolding is_ifc_dns_dhcp scan_one scan_from without_local
  set_system_dns s index = set_luid s index (net.luid s (index % 2 ^ 32))

  -- The variable dnsIsSet and the field lastIfc.
  pub record Manager : Type 0 where
    pub sys : S
    pub dns_is_set : Bool
    pub last_ifc : Option ℕ

  abbrev pub update_ifc : Bool → S → ℕ → S
  update_ifc false s index = restore_system_dns s index
  update_ifc true s index = set_system_dns s index

  abbrev pub restore_last : Option ℕ → S → ℕ → S
  restore_last none s index = s
  restore_last (some last) s index = if last == index then s else restore_system_dns s last

  -- HandleSystemDNS, with the new default interface or none.
  unfoldable pub handle_system_dns : Manager → Option ℕ → Manager
  unfolding restore_system_dns set_system_dns
  handle_system_dns m none = m
  handle_system_dns m (some index) = record m {
    sys = restore_last m.last_ifc (update_ifc m.dns_is_set m.sys index) index;
  }

  -- SetSystemDNS of the RPC, with the default interface; `false` is an error.
  unfoldable pub set_default_dns : Manager → Option ℕ → Bool → Bool × Manager
  unfolding restore_system_dns set_system_dns
  set_default_dns m none clear = (false, m)
  set_default_dns m (some index) true =
      (true, record m { sys = restore_system_dns m.sys index; dns_is_set = false })
  set_default_dns m (some index) false =
      (true, record { sys = set_system_dns m.sys index; dns_is_set = true; last_ifc = some index })
