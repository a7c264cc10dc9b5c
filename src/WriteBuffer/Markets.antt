-- ===== src/WriteBuffer/Markets.antt =====
-- The counts that `byMarket` and `mergeBacklogStates` report.
use Prim.Native.String.{String}
use text.Mathlib.Text.{◌==◌ as str_eq}
use text.Mathlib.TextEquality.{eq_iff}
use buy_not_buy_com.Common.{
  ℕ, zero, suc, ◌+◌, ◌-◌, ◌≡◌, refl, ◌||◌, some, none, List, [], ◌∷◌, ◌++◌, map, length, take, drop,
  arith, if◌then◌else◌,
}
use buy_not_buy_com.Common.Dict.{
  Dict, mem, lookup, insert, keys, fill, unique, sort, lookup-insert, mem-keys, lookup-fill,
  mem-unique, mem-sort, mem-append,
}
use buy_not_buy_com.WriteBuffer.{
  BufferOptions, MemoryBacklogState, SpoolState, or_else, create, tally, tally_all, by_market,
  merge_backlog_states,
}
use buy_not_buy_com.WriteBuffer.Eviction.{push_all, push_all_keeps_newest}

-- The set of keys over which both reports are built.
mem-union :
    (j : String) (ks js : List String) → mem j (sort (unique (ks ++ js))) ≡ (mem j ks || mem j js)
mem-union j ks js = rw (mem-sort, mem-unique, mem-append)

lookup-fill_union :
    {V : Type 0} (f : String → V) (ks js : List String) (j : String)
    → lookup j (fill f (sort (unique (ks ++ js))) [])
      ≡ (if mem j ks || mem j js then some (f j) else none)
unfolding lookup
lookup-fill_union f ks js j = rw (lookup-fill, mem-union)

mem-keys-insert :
    {V : Type 0} (j k : String) (v : V) (m : Dict V)
    → mem j (keys (insert k v m)) ≡ (str_eq k j || mem j (keys m))
mem-keys-insert j k v m =
    ground (arith, mem-keys j (insert k v m), mem-keys j m, lookup-insert k j v m)

module _ {ℓ} {A : Type ℓ} (o : BufferOptions A) where
  -- How many of the entries are of the market.
  abbrev pub count_market : String → List A → ℕ
  count_market j [] = 0
  count_market j (e ∷ es) = (if str_eq (o.market_of e) j then 1 else 0) + count_market j es

  lookup-tally_all :
      (j : String) (es : List A) (m : Dict ℕ)
      → or_else (lookup j (tally_all o es m)) 0 ≡ count_market j es + or_else (lookup j m) 0
  unfolding tally_all
  lookup-tally_all j [] m = omega arith
  lookup-tally_all j (e ∷ es) m = ground (
    arith,
    lookup-tally_all j es (tally (o.market_of e) m),
    lookup-insert (o.market_of e) j (or_else (lookup (o.market_of e) m) 0 + 1) m,
    eq_iff (o.market_of e) j,
  )

  mem-keys-tally_all :
      (j : String) (es : List A) (m : Dict ℕ)
      → mem j (keys (tally_all o es m)) ≡ (mem j (map o.market_of es) || mem j (keys m))
  unfolding tally_all
  mem-keys-tally_all j [] m = refl
  mem-keys-tally_all j (e ∷ es) m = ground (
    arith,
    mem-keys-tally_all j es (tally (o.market_of e) m),
    mem-keys-insert j (o.market_of e) (or_else (lookup (o.market_of e) m) 0 + 1) m,
  )

  tally_all-count :
      (j : String) (es : List A) → or_else (lookup j (tally_all o es [])) 0 ≡ count_market j es
  unfolding lookup
  tally_all-count j es = omega (arith, lookup-tally_all j es [])

  tally_all-markets :
      (j : String) (es : List A) → mem j (keys (tally_all o es [])) ≡ mem j (map o.market_of es)
  unfolding keys
  tally_all-markets j es = ground (arith, mem-keys-tally_all j es [])

  markets_split :
      (j : String) (n : ℕ) (es : List A)
      → (mem j (map o.market_of (drop n es)) || mem j (map o.market_of (take n es)))
        ≡ mem j (map o.market_of es)
  markets_split j zero es = ground arith
  markets_split j (suc n) [] = refl
  markets_split j (suc n) (e ∷ es) = ground (arith, markets_split j n es)

  -- After any entries are pushed into a new buffer, `byMarket` has an entry for exactly the markets
  -- that were pushed; it counts as buffered those of the market that are still held and as dropped
  -- those that were evicted.
  pub by_market_exact :
      (es : List A) (j : String)
      → let lost = length es - o.max_size in
        lookup j (by_market o (push_all o create es)) ≡ (
          if mem j (map o.market_of es)
          then some (record {
            buffered = count_market j (drop lost es);
            dropped = count_market j (take lost es);
          })
          else none)
  unfolding by_market
  by_market_exact es j =
      let lost = length es - o.max_size in
      let held = drop lost es in
      let gone = take lost es in
      rw (push_all_keeps_newest o es, lookup-fill_union)
        (rw (
          tally_all-count,
          tally_all-count,
          tally_all-markets,
          tally_all-markets,
          markets_split j lost es,
        ))

-- A merged backlog has an entry for exactly the markets of either side; a market that one side lacks
-- counts as 0 there, and the losses of memory and of the spool are added.
pub merge_backlog_states_exact :
    (memory : Dict MemoryBacklogState) (spool : Dict SpoolState) (j : String)
    → let m = or_else (lookup j memory) (record { buffered = 0; dropped = 0 }) in
      let s = or_else (lookup j spool) (record { spooled = 0; dropped = 0 }) in
      lookup j (merge_backlog_states memory spool) ≡ (
        if mem j (keys memory) || mem j (keys spool)
        then some
            (record { buffered = m.buffered; dropped = m.dropped + s.dropped; spooled = s.spooled })
        else none)
unfolding merge_backlog_states
merge_backlog_states_exact memory spool j = rw lookup-fill_union
