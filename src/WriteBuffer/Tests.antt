-- ===== src/WriteBuffer/Tests.antt =====
-- Runs of the write buffer on concrete entries.
use Prim.Native.String.{String}
use mathlib.Core.List.{Sublist}
use buy_not_buy_com.Common.{ℕ, ◌≤◌, ◌≡◌, refl, List, [], ◌∷◌}
use buy_not_buy_com.Common.Dict.{
  Dict, lookup, insert, keys, fill, unique_from, precedes, insert_sorted, sort,
}
use buy_not_buy_com.WriteBuffer.{
  BufferOptions, MemoryBacklogState, SpoolState, create, tally, evict, push, drain, size, tally_all,
  by_market,
}
use buy_not_buy_com.WriteBuffer.Eviction.{push_all}
use buy_not_buy_com.WriteBuffer.History.{Op, pushed, run_bounded_fifo}

abbrev Entry : Type 0
Entry = String × ℕ

abbrev options : BufferOptions Entry
options = record { max_size = 2; market_of = λ e. e.0 }

abbrev entries : List Entry
entries = ("BTCUSDT", 1) ∷ ("ETHUSDT", 2) ∷ ("BTCUSDT", 3) ∷ []

by_market_sorted :
    by_market options (push_all options create entries)
    ≡ ("BTCUSDT", record { buffered = 1; dropped = 1 })
      ∷ ("ETHUSDT", record { buffered = 1; dropped = 0 })
      ∷ []
unfolding by_market push evict create tally_all tally insert lookup keys fill unique_from sort
    insert_sorted precedes
by_market_sorted = refl

abbrev memory : Dict MemoryBacklogState
memory = ("BTCUSDT", record { buffered = 4; dropped = 1 }) ∷ []

abbrev spool : Dict SpoolState
spool =
    ("BTCUSDT", record { spooled = 7; dropped = 2 })
    ∷ ("ETHUSDT", record { spooled = 5; dropped = 0 })
    ∷ []

abbrev ops : List (Op Entry)
ops =
    Op.put ("BTCUSDT", 1)
    ∷ Op.put ("ETHUSDT", 2)
    ∷ Op.put ("BTCUSDT", 3)
    ∷ Op.flush
    ∷ Op.put ("BTCUSDT", 4)
    ∷ []

run_bounded_fifo_example :
    (1 ≤ 2) × Sublist (("ETHUSDT", 2) ∷ ("BTCUSDT", 3) ∷ ("BTCUSDT", 4) ∷ []) (pushed ops)
unfolding create size push evict tally insert lookup drain
run_bounded_fifo_example = run_bounded_fifo options ops
