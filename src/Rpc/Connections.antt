-- ===== src/Rpc/Connections.antt =====
-- internal/rpc/connections.go, CloseConnections.
-- The traffic manager is the list of the ids of its connections: a tracker that is closed leaves it.
-- A raw id is a number, and uuid.FromString the argument `parse`.
pub mod Closed
use nunya_core.Common.{
  ℕ, ◌+◌, ◌-◌, ◌*◌, ◌%◌, ◌≡◌, ◌≤◌, ◌<◌, refl, ap, Bool, true, false, not, ◌&&◌, ◌||◌, Option, none,
  some, map, List, [], ◌∷◌, ◌++◌, ◌==◌, if◌then◌else◌, contains, are_distinct, length, arith,
  Bool-cases, Option-cases, inl, inr, ==_iff, ==_refl,
}

pub data CloseReply : Type 0 where
  closed_count : ℕ → CloseReply
  no_instance no_traffic_manager : CloseReply

unfoldable pub drop_conn : ℕ → List ℕ → List ℕ
drop_conn id [] = []
drop_conn id (c ∷ conns) = let rest = drop_conn id conns in if c == id then rest else c ∷ rest

-- closed++ on an int32 that is not negative here, so its bits are those of the number.
abbrev pub add_one : ℕ → ℕ
add_one n = (n + 1) % 4294967296

-- The loop, over what uuid.FromString makes of the ids; `none` is its error.
unfoldable pub close_loop : List (Option ℕ) → List ℕ → ℕ → ℕ × List ℕ
unfolding drop_conn contains
close_loop [] conns closed = (closed, conns)
close_loop (none ∷ ids) conns closed = close_loop ids conns closed
close_loop (some id ∷ ids) conns closed =
    let skipped = close_loop ids conns closed in
    let done = close_loop ids (drop_conn id conns) (add_one closed) in
    if contains conns id then done else skipped

abbrev pub close_in : List (Option ℕ) → Option (List ℕ) → CloseReply × Option (List ℕ)
close_in ids none = (no_traffic_manager, none)
close_in ids (some conns) = let r = close_loop ids conns 0 in (closed_count r.0, some r.1)

-- The outer option is the box, the inner one its manager.
unfoldable pub close_connections :
    (ℕ → Option ℕ) → List ℕ → Option (Option (List ℕ)) → CloseReply × Option (Option (List ℕ))
unfolding close_loop
close_connections parse [] box = (closed_count 0, box)
close_connections parse (id ∷ ids) none = (no_instance, none)
close_connections parse (id ∷ ids) (some manager) =
    let r = close_in (map parse (id ∷ ids)) manager in (r.0, some r.1)

-- The request names the connection.
pub asks_for : List (Option ℕ) → ℕ → Bool
asks_for [] t = false
asks_for (none ∷ ids) t = asks_for ids t
asks_for (some id ∷ ids) t = id == t || asks_for ids t
