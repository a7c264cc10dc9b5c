-- ===== src/WriteBuffer/Eviction.antt =====
-- `push` keeps the newest entries, and counts the others.
use buy_not_buy_com.Common.{
  ℕ, suc, ◌+◌, ◌-◌, ◌≤◌, ◌≡◌, refl, true, false, List, [], ◌∷◌, ◌++◌, ltb, length, take, drop,
  arith, length-append, length-drop, drop-append, take-append, drop_add, take_add, Bool-cases, inl,
  inr, ltb→lt,
}
use mathlib.Core.List.{append-nil, append_assoc}
use buy_not_buy_com.Common.Dict.{Dict}
use buy_not_buy_com.WriteBuffer.{BufferOptions, WriteBuffer, create, evict, push, tally, tally_all}

module _ {ℓ} {A : Type ℓ} where
  evict_long :
      (o : BufferOptions A) (e : A) (es : List A) (d : ℕ) (m : Dict ℕ)
      → ltb o.max_size (length (e ∷ es)) ≡ true
      → evict o (e ∷ es) d m ≡ evict o es (d + 1) (tally (o.market_of e) m)
  unfolding evict
  evict_long o e es d m h = rw (h, evict)

  evict_short :
      (o : BufferOptions A) (e : A) (es : List A) (d : ℕ) (m : Dict ℕ)
      → ltb o.max_size (length (e ∷ es)) ≡ false
      → evict o (e ∷ es) d m ≡ record { entries = e ∷ es; dropped = d; dropped_by_market = m }
  unfolding evict
  evict_short o e es d m h = rw (h, evict)

  -- The whole effect of the loop: it drops the surplus from the front, and tallies what it drops.
  pub evict_lem :
      (o : BufferOptions A) (es : List A) (d : ℕ) (m : Dict ℕ)
      → evict o es d m ≡ record {
        entries = drop (length es - o.max_size) es;
        dropped = d + (length es - o.max_size);
        dropped_by_market = tally_all o (take (length es - o.max_size) es) m;
      }
  unfolding evict tally_all
  evict_lem o [] d m = rw (surplus, count)
    where
      surplus : 0 - o.max_size ≡ 0
      surplus = omega arith

      count : d + 0 ≡ d
      count = omega arith
  evict_lem o (e ∷ es) d m = elim (Bool-cases (ltb o.max_size (length (e ∷ es)))) [
    | inl long ↦
        let k = length es - o.max_size in
        let surplus : suc (length es) - o.max_size ≡ suc k =
          omega (arith, ltb→lt o.max_size (suc (length es)) long) in
        let count : d + 1 + k ≡ d + suc k = omega arith in
        rw (evict_long o e es d m long, surplus, ← count)
          (evict_lem o es (d + 1) (tally (o.market_of e) m))
    | inr short ↦
        let surplus : suc (length es) - o.max_size ≡ 0 = ground arith in
        let count : d + 0 ≡ d = omega arith in rw (evict_short o e es d m short, surplus, count)
  ]

  tally_all-append :
      (o : BufferOptions A) (es fs : List A) (m : Dict ℕ)
      → tally_all o (es ++ fs) m ≡ tally_all o fs (tally_all o es m)
  unfolding tally_all
  tally_all-append o [] fs m = refl
  tally_all-append o (e ∷ es) fs m = tally_all-append o es fs (tally (o.market_of e) m)

  -- What a buffer is after the entries `es` were pushed into a new one, in this order.
  abbrev pub summary : BufferOptions A → List A → WriteBuffer A
  summary o es =
      let lost = length es - o.max_size in
      record {
        entries = drop lost es;
        dropped = lost;
        dropped_by_market = tally_all o (take lost es) [];
      }

  push-summary :
      (o : BufferOptions A) (h : List A) (e : A)
      → push o (summary o h) e ≡ summary o (h ++ (e ∷ []))
  unfolding push
  push-summary o h e =
      let k = length h - o.max_size in
      let all = h ++ (e ∷ []) in
      let le : k ≤ length h = omega arith in
      let m = length (drop k all) - o.max_size in
      let total : k + m ≡ length all - o.max_size =
        omega (arith, length-append h (e ∷ []), length-drop k all) in
      rw (
        evict_lem o (drop k h ++ (e ∷ [])) k (tally_all o (take k h) []),
        ← tally_all-append o (take k h)
            (take (length (drop k h ++ (e ∷ [])) - o.max_size) (drop k h ++ (e ∷ []))) [],
        ← drop-append k h (e ∷ []) le,
        ← take-append k h (e ∷ []) le,
        drop_add k m all,
        take_add k m all,
        total,
      )

  abbrev pub push_all : BufferOptions A → WriteBuffer A → List A → WriteBuffer A
  push_all o b [] = b
  push_all o b (e ∷ es) = push_all o (push o b e) es

  push_all-summary :
      (o : BufferOptions A) (h es : List A) → push_all o (summary o h) es ≡ summary o (h ++ es)
  push_all-summary o h [] = rw append-nil
  push_all-summary o h (e ∷ es) =
      rw (push-summary o h e, push_all-summary o (h ++ (e ∷ [])) es, append_assoc)

  -- After any entries are pushed into a new buffer, it holds the newest `max_size` of them in the
  -- order in which they came, and it has counted the rest, in total and by market, as dropped.
  pub push_all_keeps_newest :
      (o : BufferOptions A) (es : List A)
      → let lost = length es - o.max_size in
        push_all o create es ≡ record {
          entries = drop lost es;
          dropped = lost;
          dropped_by_market = tally_all o (take lost es) [];
        }
  unfolding create tally_all
  push_all_keeps_newest o es =
      let nothing : 0 - o.max_size ≡ 0 = omega arith in
      let start : create ≡ summary o [] = rw (nothing) in rw start (push_all-summary o [] es)
