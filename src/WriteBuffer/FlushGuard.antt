-- ===== src/WriteBuffer/FlushGuard.antt =====
-- createFlushGuard: a flush is named by the number of flushes that began before it.
use buy_not_buy_com.Common.{ℕ, ◌+◌, Option, some, none}
mod Tests

pub record FlushGuard : Type 0 where
  pub in_flight : Option ℕ
  pub begun : ℕ

pub create_flush_guard : FlushGuard
create_flush_guard = record { in_flight = none; begun = 0 }

-- The promise that a call returns: of the flush that runs, or of the one that it begins.
pub flush_from : Option ℕ → FlushGuard → FlushGuard × ℕ
flush_from (some i) g = (g, i)
flush_from none g = (record { in_flight = some g.begun; begun = g.begun + 1 }, g.begun)

pub call_flush : FlushGuard → FlushGuard × ℕ
unfolding flush_from
call_flush g = flush_from g.in_flight g

-- The `finally` of a flush: only the flush that runs can settle.
pub flush_settled : FlushGuard → FlushGuard
flush_settled g = record g { in_flight = none }
