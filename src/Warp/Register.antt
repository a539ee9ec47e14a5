-- ===== src/Warp/Register.antt =====
-- internal/warp/register.go: Register, with fillCommon, fillWireGuard and enrollMASQUE. What the
-- crypto and the encoding libraries and the servers answer is the record Answers.
pub mod Meets
pub mod Complete
use nunya_core.Common.{
  ℕ, ◌≡◌, Bool, true, false, not, ◌&&◌, ◌||◌, Option, none, some, List, [], ◌∷◌, if◌then◌else◌, map,
  codes, Try, fails, gives, ◌>>=◌,
}
use nunya_core.Warp.Hosts.{is_empty, normalize_hosts}
use nunya_core.Warp.Client.{
  Peer, Device, Exchange, CallError, call, Attempt, Failure, Registered, register,
}

pub data Tunnel : Type 0 where
  wire_guard masque unknown : Tunnel

pub data RegisterError : Type 0 where
  unknown_tunnel_type no_client no_private_key no_serial no_id_or_token no_addresses no_peer_key
        bad_client_id no_masque_key bad_peer_key panics :
      RegisterError
  not_registered : List Failure → RegisterError
  not_enrolled : CallError → RegisterError

pub record Identity : Type 0 where
  pub device_id : List ℕ
  pub token : List ℕ
  pub license : List ℕ
  pub ipv4 : List ℕ
  pub ipv6 : List ℕ
  pub private_key : List ℕ
  pub peer_public_key : List ℕ
  pub endpoint : List ℕ
  pub reserved : List ℕ

-- `private_key` and `masque_key` are the encoded keys. `post` and `done` are what a host does with
-- POST /reg and whether the context is done then, `patch` what it does with the PATCH of a device's id
-- with a token. `decode` is base64's, `parse_peer` parsePeerPublicKey.
pub record Answers : Type 0 where
  pub client : Bool
  pub private_key : Option (List ℕ)
  pub serial : Bool
  pub lower : ℕ → ℕ
  pub post : List ℕ → Exchange
  pub done : List ℕ → Bool
  pub decode : List ℕ → Option (List ℕ)
  pub masque_key : Option (List ℕ)
  pub patch : (host id token : List ℕ) → Exchange
  pub parse_peer : List ℕ → Option (List ℕ)

abbrev pub or_error : {A : Type 0} → RegisterError → Option A → Try RegisterError A
or_error e none = fails e
or_error e (some a) = gives a

abbrev pub require : Bool → RegisterError → Try RegisterError Bool
require true e = gives true
require false e = fails e

-- Peers[0], which panics where there is none.
abbrev pub first_peer : List Peer → Try RegisterError Peer
first_peer [] = fails panics
first_peer (p ∷ peers) = gives p

abbrev pub has_peer_key : List Peer → Bool
has_peer_key [] = false
has_peer_key (p ∷ peers) = not (is_empty p.public_key)

unfoldable pub fill_common : Device → Identity → Try RegisterError Identity
fill_common d i =
    if is_empty d.v4 && is_empty d.v6
    then fails no_addresses
    else if not (has_peer_key d.peers)
    then fails no_peer_key
    else gives (record i { ipv4 = d.v4; ipv6 = d.v6 })

abbrev pub or_default_endpoint : List ℕ → List ℕ
or_default_endpoint host = if is_empty host then codes "engage.cloudflareclient.com:2408" else host

unfoldable pub fill_wire_guard : Answers → Device → List ℕ → Identity → Try RegisterError Identity
unfolding fill_common
fill_wire_guard a d key i = do
  j ← fill_common d i
  reserved ← or_error bad_client_id (a.decode d.client_id)
  p ← first_peer d.peers
  gives (record j {
    private_key = key;
    peer_public_key = p.public_key;
    endpoint = or_default_endpoint p.host;
    reserved = reserved;
  })

abbrev pub enrolled : Try CallError Device → Try RegisterError Device
enrolled (fails e) = fails (not_enrolled e)
enrolled (gives d) = gives d

unfoldable pub enroll_masque : Answers → Registered → Identity → Try RegisterError Identity
unfolding fill_common
enroll_masque a r i = do
  key ← or_error no_masque_key a.masque_key
  d ← enrolled (call (a.patch r.host r.device.id r.device.token))
  j ← fill_common d i
  p ← first_peer d.peers
  peer_public_key ← or_error bad_peer_key (a.parse_peer p.public_key)
  gives (record j {
    private_key = key;
    peer_public_key = peer_public_key;
    endpoint = codes "162.159.198.2:443";
  })

abbrev pub attempts : Answers → List (List ℕ) → List Attempt
attempts a hosts =
    map (λ (h : List ℕ). record { host = h; exchange = a.post h; done = a.done h })
      (normalize_hosts a.lower hosts)

abbrev pub found : Try (List Failure) Registered → Try RegisterError Registered
found (fails failures) = fails (not_registered failures)
found (gives r) = gives r

abbrev pub new_identity : Device → Identity
new_identity d = record {
  device_id = d.id;
  token = d.token;
  license = d.license;
  ipv4 = [];
  ipv6 = [];
  private_key = [];
  peer_public_key = [];
  endpoint = [];
  reserved = [];
}

abbrev pub fill : Tunnel → Answers → Registered → List ℕ → Try RegisterError Identity
fill wire_guard a r key = fill_wire_guard a r.device key (new_identity r.device)
fill masque a r key = enroll_masque a r (new_identity r.device)
fill unknown a r key = fails unknown_tunnel_type

-- After the registration.
abbrev pub fill_registered : Tunnel → Answers → List ℕ → Registered → Try RegisterError Identity
fill_registered tunnel a key r = do
  complete ← require (not (is_empty r.device.id || is_empty r.device.token)) no_id_or_token
  fill tunnel a r key

abbrev pub is_known : Tunnel → Bool
is_known wire_guard = true
is_known masque = true
is_known unknown = false

unfoldable pub register_identity : Tunnel → Answers → List (List ℕ) → Try RegisterError Identity
unfolding register normalize_hosts fill_wire_guard enroll_masque
register_identity tunnel a hosts = do
  known ← require (is_known tunnel) unknown_tunnel_type
  client ← require a.client no_client
  key ← or_error no_private_key a.private_key
  serial ← require a.serial no_serial
  r ← found (register (attempts a hosts))
  fill_registered tunnel a key r
