-- ===== src/Rpc/Connections/Closed.antt =====
-- Which connections CloseConnections closes, and that it counts them.
use nunya_core.Common.{
  ℕ, ◌+◌, ◌≡◌, ◌<◌, refl, ap, true, not, ◌&&◌, Option, none, some, map, List, [], ◌∷◌, ◌==◌,
  if◌then◌else◌, contains, are_distinct, length, arith, Bool-cases, inl, inr, ==_iff,
}
use nunya_core.Rpc.Connections.{
  closed_count, drop_conn, add_one, close_loop, close_connections, asks_for,
}

contains-drop_conn :
    (id t : ℕ) (conns : List ℕ)
    → contains (drop_conn id conns) t ≡ (not (id == t) && contains conns t)
unfolding contains drop_conn
contains-drop_conn id t [] = ground arith
contains-drop_conn id t (c ∷ conns) = ground (arith, contains-drop_conn id t conns)

distinct-drop_conn :
    (id : ℕ) (conns : List ℕ) → are_distinct conns ≡ true → are_distinct (drop_conn id conns) ≡ true
unfolding contains drop_conn are_distinct
distinct-drop_conn id [] d = refl
distinct-drop_conn id (c ∷ conns) d =
    ground (arith, distinct-drop_conn id conns, contains-drop_conn id c conns)

length-drop_conn :
    (id : ℕ) (conns : List ℕ)
    → are_distinct conns ≡ true
    → length (drop_conn id conns) + (if contains conns id then 1 else 0) ≡ length conns
unfolding contains drop_conn are_distinct
length-drop_conn id [] d = omega arith
length-drop_conn id (c ∷ conns) d = elim (Bool-cases (c == id)) [
  | inl e ↦ ground (arith, length-drop_conn id conns, ap (contains conns) ((==_iff c id).0 e))
  | inr e ↦ ground (arith, length-drop_conn id conns)
]

loop_keeps :
    (ids : List (Option ℕ)) (conns : List ℕ) (closed t : ℕ)
    → contains (close_loop ids conns closed).1 t ≡ (contains conns t && not (asks_for ids t))
unfolding close_loop asks_for
loop_keeps [] conns closed t = ground arith
loop_keeps (none ∷ ids) conns closed t = loop_keeps ids conns closed t
loop_keeps (some id ∷ ids) conns closed t = elim (Bool-cases (contains conns id)) [
  | inl c ↦ rw c (
      ground (
        arith,
        loop_keeps ids (drop_conn id conns) (add_one closed) t,
        contains-drop_conn id t conns,
      ))
  | inr c ↦ rw c (elim (Bool-cases (id == t)) [
    | inl e ↦ ground (arith, loop_keeps ids conns closed t, ap (contains conns) ((==_iff id t).0 e))
    | inr e ↦ ground (arith, loop_keeps ids conns closed t)
  ])
]

loop_counts :
    (ids : List (Option ℕ)) (conns : List ℕ) (closed : ℕ)
    → are_distinct conns ≡ true
    → closed + length conns < 2147483648
    → (close_loop ids conns closed).0 + length (close_loop ids conns closed).1
      ≡ closed + length conns
unfolding close_loop
loop_counts [] conns closed d h = refl
loop_counts (none ∷ ids) conns closed d h = loop_counts ids conns closed d h
loop_counts (some id ∷ ids) conns closed d h = elim (Bool-cases (contains conns id)) [
  | inl c ↦ rw c (
      ground (
        arith,
        length-drop_conn id conns d,
        loop_counts ids (drop_conn id conns) (add_one closed) (distinct-drop_conn id conns d),
      ))
  | inr c ↦ rw c (loop_counts ids conns closed d h)
]

-- With a box whose manager has fewer than 2^31 connections, each under an id of its own, a
-- CloseConnections for at least one id answers a count; a connection stays exactly if no id of the
-- request parses to its own; and the count is the number of connections that went.
pub close_connections_exact :
    (parse : ℕ → Option ℕ) (id : ℕ) (ids conns : List ℕ)
    → are_distinct conns ≡ true
    → length conns < 2147483648
    → (n : ℕ) × (left : List ℕ) × (close_connections parse (id ∷ ids) (some (some conns))
        ≡ (closed_count n, some (some left)))
      × ((t : ℕ) → contains left t ≡ (contains conns t && not (asks_for (map parse (id ∷ ids)) t)))
      × (n + length left ≡ length conns)
unfolding close_connections
close_connections_exact parse id ids conns d h =
    let parsed = map parse (id ∷ ids) in
    (
      (close_loop parsed conns 0).0,
      (close_loop parsed conns 0).1,
      refl,
      λ t. loop_keeps parsed conns 0 t,
      omega (arith, loop_counts parsed conns 0 d (omega (arith, h))),
    )
