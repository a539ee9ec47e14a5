-- ===== src/Entry/Watchdog.antt =====
-- main.go: watchMemory. A round has the live heap before and after a forced collection.
use nunya_core.Common.{
  ℕ, ◌*◌, ◌≡◌, refl, Bool, true, false, ◌&&◌, ◌||◌, List, [], ◌∷◌, ltb, leb, if◌then◌else◌, arith,
}

abbrev pub memory_panic_threshold : ℕ
memory_panic_threshold = 1536 * 1024 * 1024

pub data Round : Type 0 where
  below : Round
  collected : Round
  panics : Round

unfoldable pub watch_round : ℕ → ℕ → Round
watch_round live after =
    if ltb live memory_panic_threshold
    then below
    else if ltb after memory_panic_threshold
    then collected
    else panics

abbrev pub after_round : Round → Bool → Bool
after_round panics rest = true
after_round _ rest = rest

-- Whether the loop panics in one of the rounds.
unfoldable pub watch_memory : List (ℕ × ℕ) → Bool
unfolding watch_round
watch_memory [] = false
watch_memory ((live, after) ∷ rounds) = after_round (watch_round live after) (watch_memory rounds)

unfoldable pub stays_high : List (ℕ × ℕ) → Bool
stays_high [] = false
stays_high ((live, after) ∷ rounds) =
    leb memory_panic_threshold live && leb memory_panic_threshold after || stays_high rounds

-- The loop panics exactly if in some round the live heap reaches the threshold before the forced
-- collection and after it.
pub watch_memory_iff : (rounds : List (ℕ × ℕ)) → watch_memory rounds ≡ stays_high rounds
unfolding watch_memory stays_high
watch_memory_iff [] = refl
watch_memory_iff ((live, after) ∷ rounds) = ground (arith, watch_memory_iff rounds)
