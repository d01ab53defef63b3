-- ===== src/Daemon/Backoff.antt =====
-- `maintainPeer`: how long the daemon waits between two attempts to dial a peer, in milliseconds.
use gsnet.Common.{ℕ, ◌*◌, ◌≤◌, List, [], ◌∷◌, Bool, true, false, ltb, if◌then◌else◌, arith}

abbrev pub max_backoff : ℕ
max_backoff = 30000

abbrev pub first_backoff : ℕ
first_backoff = 500

-- `backoff *= 2`, and the limit.
abbrev pub doubled : ℕ → ℕ
doubled b = if ltb max_backoff (b * 2) then max_backoff else b * 2

-- One turn of the loop: the wait and the next backoff.
unfoldable pub turn : ℕ → Bool → ℕ × ℕ
turn b true = (max_backoff, b)
turn b false = (b, doubled b)

-- The waits of the loop for the outcomes of the attempts, in order.
unfoldable pub waits : ℕ → List Bool → List ℕ
unfolding turn
waits b [] = []
waits b (o ∷ os) = (turn b o).0 ∷ waits (turn b o).1 os

-- Every wait is in the bounds.
abbrev pub AllBetween : ℕ → ℕ → List ℕ → Type 0
AllBetween low high [] = Unit
AllBetween low high (x ∷ xs) = (low ≤ x) × (x ≤ high) × AllBetween low high xs

waits_from :
    (b : ℕ) (os : List Bool)
    → first_backoff ≤ b
    → b ≤ max_backoff
    → AllBetween first_backoff max_backoff (waits b os)
unfolding waits turn
waits_from b [] h k = tt
waits_from b (true ∷ os) h k = (omega arith, omega arith, waits_from b os h k)
waits_from b (false ∷ os) h k = (h, k, waits_from (doubled b) os (ground arith) (ground arith))

-- Every wait between two attempts is at least half a second and at most 30 seconds, whatever the outcomes.
pub waits-AllBetween : (os : List Bool) → AllBetween 500 30000 (waits first_backoff os)
waits-AllBetween os = waits_from first_backoff os (omega arith) (omega arith)
