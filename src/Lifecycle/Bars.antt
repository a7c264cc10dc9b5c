-- ===== src/Lifecycle/Bars.antt =====
-- Counts of bars as comparisons of times.
use buy_not_buy_com.Common.{ℕ, ◌+◌, ◌-◌, ◌*◌, ◌/◌, ◌≤◌, ◌<◌, ◌≡◌, arith, ltb, leb}
use buy_not_buy_com.Lifecycle.{bars_between, reaches, cooldown_blocks}

leb-div : (k d i : ℕ) → 0 < i → leb k (d / i) ≡ leb (k * i) d
leb-div k d i h = grind arith

le_mul : (k i : ℕ) → 0 < k → i ≤ k * i
le_mul k i h = grind arith

-- A count of bars reaches a limit exactly when the later time has reached the limit's own time.
pub reaches_exact :
    (earlier later interval_ms limit : ℕ)
    → 0 < interval_ms
    → 0 < limit
    → reaches (bars_between earlier later interval_ms) limit
      ≡ leb (earlier + limit * interval_ms) later
unfolding bars_between
reaches_exact earlier later i limit h k =
    ground (arith, leb-div limit (later - earlier) i h, le_mul limit i k)

-- With a cooldown and an interval set, a closed signal blocks another in its direction exactly until
-- the cooldown's bars have passed since its bar.
pub cooldown_blocks_exact :
    (last_closed now interval_ms bars : ℕ)
    → 0 < interval_ms
    → 0 < bars
    → cooldown_blocks last_closed now interval_ms bars ≡ ltb now (last_closed + bars * interval_ms)
unfolding cooldown_blocks
cooldown_blocks_exact last now i bars h k =
    ground (arith, leb-div bars (now - last) i h, le_mul bars i k)
