-- ===== src/WriteBuffer.antt =====
-- src/backend/observability/bounded-write-buffer.ts: the object that createBoundedWriteBuffer closes
-- over is a record, and `mergeBacklogStates` a function. The flush guard is in FlushGuard.antt.
use Prim.Native.String.{String}
use buy_not_buy_com.Common.{
  ℕ, ◌+◌, ◌≡◌, Bool, true, false, Option, some, none, List, [], ◌∷◌, ◌++◌, ltb, length,
  if◌then◌else◌,
}
use buy_not_buy_com.Common.Dict.{Dict, lookup, insert, keys, fill, unique, unique_from, sort}
pub mod Eviction
pub mod Markets
pub mod History
pub mod FlushGuard
mod Tests

pub record BufferOptions {ℓ} (A : Type ℓ) : Type ℓ where
  pub max_size : ℕ
  pub market_of : A → String

pub record WriteBuffer {ℓ} (A : Type ℓ) : Type ℓ where
  pub entries : List A
  pub dropped : ℕ
  pub dropped_by_market : Dict ℕ

pub record MemoryBacklogState : Type 0 where
  pub buffered : ℕ
  pub dropped : ℕ

pub record SpoolState : Type 0 where
  pub spooled : ℕ
  pub dropped : ℕ

pub record BacklogState : Type 0 where
  pub buffered : ℕ
  pub dropped : ℕ
  pub spooled : ℕ

-- `map.get(k) ?? v`.
abbrev pub or_else {ℓ} : {A : Type ℓ} → Option A → A → A
or_else (some a) b = a
or_else none b = b

-- `map.set(market, (map.get(market) ?? 0) + 1)`.
pub tally : String → Dict ℕ → Dict ℕ
tally market counts = insert market (or_else (lookup market counts) 0 + 1) counts

module _ {ℓ} {A : Type ℓ} where
  pub create : WriteBuffer A
  create = record { entries = []; dropped = 0; dropped_by_market = [] }

  -- The loop of `push`: while the queue is too long, its oldest entry goes.
  pub evict : BufferOptions A → List A → ℕ → Dict ℕ → WriteBuffer A
  unfolding tally
  evict o [] d m = record { entries = []; dropped = d; dropped_by_market = m }
  evict o (e ∷ es) d m = elim (ltb o.max_size (length (e ∷ es))) [
    | true ↦ evict o es (d + 1) (tally (o.market_of e) m)
    | false ↦ record { entries = e ∷ es; dropped = d; dropped_by_market = m }
  ]

  pub push : BufferOptions A → WriteBuffer A → A → WriteBuffer A
  unfolding evict
  push o b e = evict o (b.entries ++ (e ∷ [])) b.dropped b.dropped_by_market

  pub drain : WriteBuffer A → WriteBuffer A × List A
  drain b = (record b { entries = [] }, b.entries)

  pub size : WriteBuffer A → ℕ
  size b = length b.entries

  pub clear : WriteBuffer A → WriteBuffer A
  clear b = record b { entries = [] }

  -- The first loop of `byMarket`.
  pub tally_all : BufferOptions A → List A → Dict ℕ → Dict ℕ
  unfolding tally
  tally_all o [] m = m
  tally_all o (e ∷ es) m = tally_all o es (tally (o.market_of e) m)

  pub by_market : BufferOptions A → WriteBuffer A → Dict MemoryBacklogState
  by_market o b =
      let buffered = tally_all o b.entries [] in
      fill
        (λ market. record {
          buffered = or_else (lookup market buffered) 0;
          dropped = or_else (lookup market b.dropped_by_market) 0;
        })
        (sort (unique (keys buffered ++ keys b.dropped_by_market))) []

abbrev merged_state : Dict MemoryBacklogState → Dict SpoolState → String → BacklogState
merged_state memory spool market =
    let m = or_else (lookup market memory) (record { buffered = 0; dropped = 0 }) in
    let s = or_else (lookup market spool) (record { spooled = 0; dropped = 0 }) in
    record { buffered = m.buffered; dropped = m.dropped + s.dropped; spooled = s.spooled }

pub merge_backlog_states : Dict MemoryBacklogState → Dict SpoolState → Dict BacklogState
merge_backlog_states memory spool =
    fill (merged_state memory spool) (sort (unique (keys memory ++ keys spool))) []
