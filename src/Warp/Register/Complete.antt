-- ===== src/Warp/Register/Complete.antt =====
-- What an identity holds.
use nunya_core.Common.{
  ℕ, ◌≡◌, refl, ap, ◌∙◌, true, false, not, ◌||◌, List, [], ◌∷◌, Try, fails, gives, ◌>>=◌, arith,
}
use nunya_core.Warp.Hosts.{is_empty}
use nunya_core.Warp.Client.{Device, call, Registered, register}
use nunya_core.Warp.Register.{
  Tunnel, wire_guard, masque, unknown, RegisterError, unknown_tunnel_type, no_client,
  no_private_key, no_serial, no_id_or_token, bad_client_id, no_masque_key, bad_peer_key, Identity,
  Answers, or_error, require, first_peer, has_peer_key, fill_common, or_default_endpoint,
  fill_wire_guard, enrolled, enroll_masque, attempts, found, new_identity, fill, is_known,
  fill_registered, register_identity,
}
use nunya_core.Warp.Register.Meets.{
  HasCommon, Meets, bind-Meets, enrolled-Meets, enrolled_gave, fill_common-Meets, first_peer-Meets,
  found-Meets, found_gave, has_address, Meets-Gave, meets_gives, or_error-Meets, require-Meets,
  required,
}

-- The answer that the addresses and the peer are taken from.
abbrev pub Source : Tunnel → Answers → Registered → Device → Type 0
Source wire_guard a r d = d ≡ r.device
Source masque a r d = call (a.patch r.host r.device.id r.device.token) ≡ gives d
Source unknown a r d = ⊥

pub record Filled (tunnel : Tunnel) (a : Answers) (r : Registered) (i : Identity) : Type 0 where
  pub answer : Device
  pub from : Source tunnel a r answer
  pub addressed : has_address answer ≡ true
  pub keyed : has_peer_key answer.peers ≡ true
  pub device_id : i.device_id ≡ r.device.id
  pub token : i.token ≡ r.device.token
  pub license : i.license ≡ r.device.license
  pub ipv4 : i.ipv4 ≡ answer.v4
  pub ipv6 : i.ipv6 ≡ answer.v6
  pub endpoint : is_empty i.endpoint ≡ false

or_default_endpoint_lem : (host : List ℕ) → is_empty (or_default_endpoint host) ≡ false
or_default_endpoint_lem [] = refl
or_default_endpoint_lem (c ∷ host) = refl

wire_guard-Filled :
    (a : Answers) (r : Registered) (key : List ℕ)
    → Meets (Filled wire_guard a r) (fill_wire_guard a r.device key (new_identity r.device))
unfolding fill_wire_guard
wire_guard-Filled a r key =
    let d = r.device in
    let i = new_identity d in
    let common = fill_common-Meets d i in
    bind-Meets (Filled wire_guard a r) (fill_common d i) (λ j. _)
      (Meets-Gave (HasCommon d i) (fill_common d i) common)
      (λ j gj.
        let c = meets_gives (HasCommon d i) (fill_common d i) j common gj in
        bind-Meets (Filled wire_guard a r) (or_error bad_client_id (a.decode d.client_id))
          (λ reserved. _) (or_error-Meets bad_client_id (a.decode d.client_id) refl)
          (λ reserved gr.
            bind-Meets (Filled wire_guard a r) (first_peer d.peers) (λ p. _)
              (first_peer-Meets d.peers c.keyed)
              (λ p gp. record {
                answer = d;
                from = refl;
                addressed = c.addressed;
                keyed = c.keyed;
                device_id = ap (λ (x : Identity). x.device_id) c.made;
                token = ap (λ (x : Identity). x.token) c.made;
                license = ap (λ (x : Identity). x.license) c.made;
                ipv4 = ap (λ (x : Identity). x.ipv4) c.made;
                ipv6 = ap (λ (x : Identity). x.ipv6) c.made;
                endpoint = or_default_endpoint_lem p.host;
              })))

masque-Filled :
    (a : Answers) (r : Registered)
    → Meets (Filled masque a r) (enroll_masque a r (new_identity r.device))
unfolding enroll_masque
masque-Filled a r =
    let i = new_identity r.device in
    let answer_ = call (a.patch r.host r.device.id r.device.token) in
    bind-Meets (Filled masque a r) (or_error no_masque_key a.masque_key) (λ key. _)
      (or_error-Meets no_masque_key a.masque_key refl)
      (λ key gk.
        bind-Meets (Filled masque a r) (enrolled answer_) (λ d. _) (enrolled-Meets answer_)
          (λ d gd.
            bind-Meets (Filled masque a r) (fill_common d i) (λ j. _)
              (Meets-Gave (HasCommon d i) (fill_common d i) (fill_common-Meets d i))
              (λ j gj.
                let c =
                  meets_gives (HasCommon d i) (fill_common d i) j (fill_common-Meets d i) gj in
                bind-Meets (Filled masque a r) (first_peer d.peers) (λ p. _)
                  (first_peer-Meets d.peers c.keyed)
                  (λ p gp.
                    bind-Meets (Filled masque a r)
                      (or_error bad_peer_key (a.parse_peer p.public_key)) (λ k. _)
                      (or_error-Meets bad_peer_key (a.parse_peer p.public_key) refl)
                      (λ k gk. record {
                        answer = d;
                        from = enrolled_gave answer_ d gd;
                        addressed = c.addressed;
                        keyed = c.keyed;
                        device_id = ap (λ (x : Identity). x.device_id) c.made;
                        token = ap (λ (x : Identity). x.token) c.made;
                        license = ap (λ (x : Identity). x.license) c.made;
                        ipv4 = ap (λ (x : Identity). x.ipv4) c.made;
                        ipv6 = ap (λ (x : Identity). x.ipv6) c.made;
                        endpoint = refl;
                      })))))

fill-Meets :
    (tunnel : Tunnel) (a : Answers) (r : Registered) (key : List ℕ)
    → Meets (Filled tunnel a r) (fill tunnel a r key)
fill-Meets wire_guard a r key = wire_guard-Filled a r key
fill-Meets masque a r key = masque-Filled a r
fill-Meets unknown a r key = refl

-- A device was registered, has an id and a token, and gave the identity.
pub record Complete (tunnel : Tunnel) (a : Answers) (hosts : List (List ℕ)) (i : Identity)
    : Type 0 where
  pub registered : Registered
  pub at_host : register (attempts a hosts) ≡ gives registered
  pub has_id : is_empty i.device_id ≡ false
  pub has_token : is_empty i.token ≡ false
  pub filled : Filled tunnel a registered i

fill-Complete :
    (tunnel : Tunnel) (a : Answers) (hosts : List (List ℕ)) (r : Registered)
    (m : Try RegisterError Identity)
    → register (attempts a hosts) ≡ gives r
    → not (is_empty r.device.id || is_empty r.device.token) ≡ true
    → Meets (Filled tunnel a r) m
    → Meets (Complete tunnel a hosts) m
fill-Complete tunnel a hosts r (fails e) g c f = f
fill-Complete tunnel a hosts r (gives i) g c f = record {
  registered = r;
  at_host = g;
  has_id = ap is_empty f.device_id ∙ ground (arith, c);
  has_token = ap is_empty f.token ∙ ground (arith, c);
  filled = f;
}

registered-Complete :
    (tunnel : Tunnel) (a : Answers) (hosts : List (List ℕ)) (key : List ℕ)
    → Meets
        (Complete tunnel a hosts)
        (found (register (attempts a hosts)) >>= fill_registered tunnel a key)
registered-Complete tunnel a hosts key =
    let P = Complete tunnel a hosts in
    let m = register (attempts a hosts) in
    bind-Meets P (found m) (fill_registered tunnel a key) (found-Meets m) (λ r g.
      let complete = not (is_empty r.device.id || is_empty r.device.token) in
      bind-Meets P (require complete no_id_or_token) (λ c. fill tunnel a r key)
        (require-Meets complete no_id_or_token refl)
        (λ c gc.
          fill-Complete tunnel a hosts r (fill tunnel a r key) (found_gave m r g)
            (required complete no_id_or_token c gc) (fill-Meets tunnel a r key)))

-- For every tunnel type, list of hosts and whatever the servers and the libraries answer: Register
-- does not index a list of peers that is empty. If it returns an identity, a device was registered at
-- one of the normalized hosts, with an id and a token that are not empty and are those of the
-- identity, as its license is; the addresses, at least one of which is not empty, are those of an
-- answer whose first peer has a key, which for WireGuard is the registration's, and for MASQUE is
-- what the same host answered to a PATCH with that id and token; and the endpoint is not empty.
pub register_identity-Complete :
    (tunnel : Tunnel) (a : Answers) (hosts : List (List ℕ))
    → Meets (Complete tunnel a hosts) (register_identity tunnel a hosts)
unfolding register_identity
register_identity-Complete tunnel a hosts =
    let P = Complete tunnel a hosts in
    bind-Meets P (require (is_known tunnel) unknown_tunnel_type) (λ k. _)
      (require-Meets (is_known tunnel) unknown_tunnel_type refl)
      (λ k gk.
        bind-Meets P (require a.client no_client) (λ c. _) (require-Meets a.client no_client refl)
          (λ c gc.
            bind-Meets P (or_error no_private_key a.private_key) (λ key. _)
              (or_error-Meets no_private_key a.private_key refl)
              (λ key gkey.
                bind-Meets P (require a.serial no_serial) (λ s. _)
                  (require-Meets a.serial no_serial refl)
                  (λ s gs. registered-Complete tunnel a hosts key))))
