-- ===== src/CandleSeries/Bar.antt =====
-- When one candle passes the checks.
use buy_not_buy_com.Common.{
  ◌≡◌, ◌↔◌, refl, Bool, true, false, Option, some, none, arith, inl, inr, Bool-cases,
}
use buy_not_buy_com.Number.{Number, IsOrdered}
use buy_not_buy_com.CandleSeries.{
  Candle, is_all_finite, is_negative, is_inconsistent, order_issue, candle_issue,
}

module _ {N : Type 0} ⦃n : Number N⦄ where
  open n use {of_nat, is_finite, lt, le, eq}

  -- A bar that a market can have produced by the time `now`.
  pub record IsPossible (now : N) (c : Candle N) : Type 0 where
    pub finite : is_all_finite c ≡ true
    pub zero-le-low : le (of_nat 0) c.low ≡ true
    pub low-le-open : le c.low c.open_price ≡ true
    pub open-le-high : le c.open_price c.high ≡ true
    pub low-le-close : le c.low c.close ≡ true
    pub close-le-high : le c.close c.high ≡ true
    pub zero-le-volume : le (of_nat 0) c.volume ≡ true
    pub opened : le c.timestamp now ≡ true

  abbrev pub IsAfter : Option (Candle N) → Candle N → Type 0
  IsAfter none c = Unit
  IsAfter (some p) c = lt p.timestamp c.timestamp ≡ true

  abbrev pub finite_time : Option (Candle N) → Bool
  finite_time none = true
  finite_time (some p) = is_finite p.timestamp

  module _ (laws : IsOrdered N) where
    open laws use {
      of_nat_finite, lt_irrefl, lt_trans, le-not-lt, eq-not-lt, lt_of_le_lt, lt_of_lt_le,
    }

    pub finite_parts :
        (c : Candle N)
        → is_all_finite c ≡ true
        → (is_finite c.timestamp ≡ true)
          × (is_finite c.open_price ≡ true)
          × (is_finite c.high ≡ true)
          × (is_finite c.low ≡ true)
          × (is_finite c.close ≡ true)
          × (is_finite c.volume ≡ true)
    unfolding is_all_finite
    finite_parts c h = ground arith

    not_negative :
        (c : Candle N)
        → is_all_finite c ≡ true
        → is_negative c ≡ false
        → (le (of_nat 0) c.low ≡ true) × (le (of_nat 0) c.volume ≡ true)
    unfolding is_negative
    not_negative c f h = ground (
      arith,
      finite_parts c f,
      of_nat_finite 0,
      le-not-lt (of_nat 0) c.low,
      le-not-lt (of_nat 0) c.volume,
    )

    consistent :
        (c : Candle N)
        → is_all_finite c ≡ true
        → is_inconsistent c ≡ false
        → (le c.low c.open_price ≡ true)
          × (le c.open_price c.high ≡ true)
          × (le c.low c.close ≡ true)
          × (le c.close c.high ≡ true)
    unfolding is_inconsistent
    consistent c f h = ground (
      arith,
      finite_parts c f,
      le-not-lt c.low c.open_price,
      le-not-lt c.open_price c.high,
      le-not-lt c.low c.close,
      le-not-lt c.close c.high,
    )

    -- A number between two others: nothing below the lower one is above it.
    not_above : (a b : N) → is_finite a ≡ true → is_finite b ≡ true → le a b ≡ true → lt b a ≡ false
    not_above a b f g h = ground (arith, le-not-lt a b)

    le_trans :
        (a b c : N)
        → is_finite a ≡ true
        → is_finite c ≡ true
        → le a b ≡ true
        → le b c ≡ true
        → le a c ≡ true
    le_trans a b c f g h k = elim (Bool-cases (lt c a)) [
      | inl e ↦ absurd (ground (arith, lt_of_lt_le c a b e h, lt_of_le_lt b c b k, lt_irrefl b))
      | inr e ↦ ground (arith, le-not-lt a c)
    ]

    possible_not_negative : (now : N) (c : Candle N) → IsPossible now c → is_negative c ≡ false
    unfolding is_negative
    possible_not_negative now c p =
        let (t, o, h, l, e, v) = finite_parts c p.finite in
        let zero_finite = of_nat_finite 0 in
        let zero-le-open =
          le_trans (of_nat 0) c.low c.open_price zero_finite o p.zero-le-low p.low-le-open in
        let zero-le-close =
          le_trans (of_nat 0) c.low c.close zero_finite e p.zero-le-low p.low-le-close in
        let zero-le-high =
          le_trans (of_nat 0) c.open_price c.high zero_finite h zero-le-open p.open-le-high in
        ground (
          arith,
          not_above (of_nat 0) c.open_price zero_finite o zero-le-open,
          not_above (of_nat 0) c.high zero_finite h zero-le-high,
          not_above (of_nat 0) c.low zero_finite l p.zero-le-low,
          not_above (of_nat 0) c.close zero_finite e zero-le-close,
          not_above (of_nat 0) c.volume zero_finite v p.zero-le-volume,
        )

    possible_consistent : (now : N) (c : Candle N) → IsPossible now c → is_inconsistent c ≡ false
    unfolding is_inconsistent
    possible_consistent now c p =
        let (t, o, h, l, e, v) = finite_parts c p.finite in
        let low-le-high = le_trans c.low c.open_price c.high l h p.low-le-open p.open-le-high in
        ground (
          arith,
          not_above c.low c.high l h low-le-high,
          not_above c.open_price c.high o h p.open-le-high,
          not_above c.low c.open_price l o p.low-le-open,
          not_above c.close c.high e h p.close-le-high,
          not_above c.low c.close l e p.low-le-close,
        )

    pub order_exact :
        (p : Option (Candle N)) (c : Candle N)
        → finite_time p ≡ true
        → is_finite c.timestamp ≡ true
        → (order_issue p c ≡ none) ↔ IsAfter p c
    order_exact none c g f = (λ h. tt, λ h. refl)
    order_exact (some p) c g f = ground (
      arith,
      eq-not-lt c.timestamp p.timestamp,
      lt_irrefl c.timestamp,
      lt_trans c.timestamp p.timestamp c.timestamp,
    )

    pub candle_issue_exact :
        (now : N) (p : Option (Candle N)) (c : Candle N)
        → is_finite now ≡ true
        → finite_time p ≡ true
        → (candle_issue now p c ≡ none) ↔ (IsPossible now c × IsAfter p c)
    unfolding candle_issue
    candle_issue_exact now p c f g = (
      λ h.
          let (fin, pos, con, ord, past) = passed h in
          let (t, o, hi, l, e, v) = finite_parts c fin in
          let (zl, zv) = not_negative c fin pos in
          let (lo, oh, lc, ch) = consistent c fin con in
          (
            record {
              finite = fin;
              zero-le-low = zl;
              low-le-open = lo;
              open-le-high = oh;
              low-le-close = lc;
              close-le-high = ch;
              zero-le-volume = zv;
              opened = ground (arith, le-not-lt c.timestamp now);
            },
            (order_exact p c g t).0 ord,
          ),
      λ (q, after).
          let (t, o, hi, l, e, v) = finite_parts c q.finite in
          ground (
            arith,
            q.finite,
            possible_not_negative now c q,
            possible_consistent now c q,
            not_above c.timestamp now t f q.opened,
            (order_exact p c g t).1 after,
          ),
    )
      where
        passed :
            candle_issue now p c ≡ none
            → (is_all_finite c ≡ true)
              × (is_negative c ≡ false)
              × (is_inconsistent c ≡ false)
              × (order_issue p c ≡ none)
              × (lt now c.timestamp ≡ false)
        passed h = ground arith
