-- ===== src/Mobile/Status.antt =====
-- mobile/command.go: the status of an instance. A number of 64 bits is below 2^64.
pub mod Polled
use nunya_core.Common.{
  ℕ, ◌+◌, ◌-◌, ◌%◌, ◌^◌, Bool, true, false, not, ◌&&◌, ◌||◌, Option, none, some, List, [], ◌∷◌,
  ◌++◌, ◌==◌, if◌then◌else◌, eq_text, codes, map,
}

-- The fields of an Instance that Status uses.
pub record Sampler : Type 0 where
  pub status_sampled : Bool
  pub last_uplink_total : ℕ
  pub last_downlink_total : ℕ

-- What the libraries answer to one Status.
pub record Poll : Type 0 where
  pub memory_total : ℕ
  pub memory_inuse : ℕ
  pub goroutines : ℕ
  pub running : Bool
  pub connections : Option ℕ
  pub traffic : Option (ℕ × ℕ)  -- the totals up and down
  pub connections_len : ℕ

pub record StatusMessage : Type 0 where
  pub memory : ℕ
  pub goroutines : ℕ
  pub connections_in : ℕ
  pub connections_out : ℕ
  pub traffic_available : Bool
  pub uplink : ℕ
  pub downlink : ℕ
  pub uplink_total : ℕ
  pub downlink_total : ℕ

abbrev pub sub64 : ℕ → ℕ → ℕ
sub64 a b = (a + 2 ^ 64 - b) % 2 ^ 64

abbrev pub first_message : Poll → StatusMessage
first_message p = record {
  memory = if p.memory_total == 0 then p.memory_inuse else p.memory_total;
  goroutines = p.goroutines % 2 ^ 32;
  connections_in = 0;
  connections_out = 0;
  traffic_available = false;
  uplink = 0;
  downlink = 0;
  uplink_total = 0;
  downlink_total = 0;
}

abbrev pub with_connections : Option ℕ → StatusMessage → StatusMessage
with_connections none m = m
with_connections (some n) m = record m { connections_out = n % 2 ^ 32 }

abbrev pub with_traffic : Sampler → ℕ → Option (ℕ × ℕ) → StatusMessage → StatusMessage × Sampler
with_traffic s len none m = (m, s)
with_traffic s len (some (up, down)) m = (
  record m {
    traffic_available = true;
    uplink_total = up;
    downlink_total = down;
    connections_in = len % 2 ^ 32;
    uplink = if s.status_sampled then sub64 up s.last_uplink_total else 0;
    downlink = if s.status_sampled then sub64 down s.last_downlink_total else 0;
  },
  record { status_sampled = true; last_uplink_total = up; last_downlink_total = down },
)

unfoldable pub status : Poll → Sampler → StatusMessage × Sampler
status p s =
    if not p.running
    then (first_message p, s)
    else with_traffic s p.connections_len p.traffic
        (with_connections p.connections (first_message p))

-- QueryOutboundStats, with the totals of the tag if there is a traffic manager.
abbrev pub is_uplink : List ℕ → Bool
is_uplink d = eq_text d (codes "uplink") || eq_text d (codes "up") || eq_text d (codes "upload")

abbrev pub is_downlink : List ℕ → Bool
is_downlink d =
    eq_text d (codes "downlink") || eq_text d (codes "down") || eq_text d (codes "download")

abbrev pub query_outbound_stats : Option (ℕ × ℕ) → List ℕ → ℕ
query_outbound_stats none direction = 0
query_outbound_stats (some (up, down)) direction =
    if is_uplink direction then up else if is_downlink direction then down else 0
