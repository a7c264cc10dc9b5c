-- ===== src/MarketService/Calls.antt =====
-- Every call has one answer: at once, or when the call upstream that it awaits settles.
use Prim.Native.String.{String}
use text.Mathlib.Text.{◌==◌ as str_eq}
use text.Mathlib.TextEquality.{eq_iff}
use buy_not_buy_com.Common.{
  ℕ, ◌+◌, ◌++◌, ap, ◌≡◌, refl, inl, inr, Bool, true, false, not, ◌&&◌, ◌||◌, Option, some, none,
  List, [], ◌∷◌, Option-cases, arith,
}
use buy_not_buy_com.Common.Dict.{Dict, lookup, insert}
use buy_not_buy_com.Number.{Number}
use buy_not_buy_com.MarketService.{
  MarketRequest, PartialRequest, MarketConfig, Attributed, Answer, returned, cached_result, Flight,
  MarketService, MarketEvent, asks, settles, empty_service, delete, market_key, fetch_and_cache,
  get_market_data, settle_flight, run_service, answer_all, join, resolve_request,
}
use buy_not_buy_com.MarketService.Sound.{hit_cases}

abbrev pub has_key : {V : Type 0} → String → Dict V → Bool
has_key k [] = false
has_key k ((key, v) ∷ rest) = str_eq key k || has_key k rest

abbrev pub is_distinct : {V : Type 0} → Dict V → Bool
is_distinct [] = true
is_distinct ((key, v) ∷ rest) = not (has_key key rest) && is_distinct rest

-- A caller and the market it wants.
abbrev pub Wanted : Type 0
Wanted = ℕ × MarketRequest

abbrev pub one_if : Bool → ℕ
one_if true = 1
one_if false = 0

-- How many calls of a list are of a sort.
abbrev pub among : (Wanted → Bool) → List Wanted → ℕ
among p [] = 0
among p (c ∷ cs) = one_if (p c) + among p cs

-- How many calls of a sort have an answer.
abbrev pub answered : {N : Type 0} → (Wanted → Bool) → List (Wanted × ℕ × Answer N) → ℕ
answered p [] = 0
answered p ((c, at, a) ∷ rest) = one_if (p c) + answered p rest

-- How many calls of a sort await an answer.
abbrev pub waits : (Wanted → Bool) → Dict Flight → ℕ
waits p [] = 0
waits p ((key, f) ∷ rest) = among p f.waiting + waits p rest

-- The market a call wants: what it names, and the configured market where it names nothing.
abbrev pub wanted_by : {N : Type 0} → MarketConfig N → PartialRequest → MarketRequest
wanted_by cfg r = record {
  instrument = elim r.instrument [ some name ↦ name | none ↦ cfg.symbol ];
  interval = elim r.interval [ some name ↦ name | none ↦ cfg.candle_interval ];
}

-- How many of the calls among events are of a sort.
abbrev pub asked : {N : Type 0} → MarketConfig N → (Wanted → Bool) → List (MarketEvent N) → ℕ
asked cfg p [] = 0
asked cfg p (asks caller request now available ∷ es) =
    one_if (p (caller, wanted_by cfg request)) + asked cfg p es
asked cfg p (settles key chain checked_at now available ∷ es) = asked cfg p es

among-append :
    (p : Wanted → Bool) (xs ys : List Wanted) → among p (xs ++ ys) ≡ among p xs + among p ys
among-append p [] ys = omega arith
among-append p (x ∷ xs) ys = ground (arith, among-append p xs ys)

answered-append :
    {N : Type 0} (p : Wanted → Bool) (xs ys : List (Wanted × ℕ × Answer N))
    → answered p (xs ++ ys) ≡ answered p xs + answered p ys
answered-append p [] ys = omega arith
answered-append p ((c, at, a) ∷ xs) ys = ground (arith, answered-append p xs ys)

module _ {V : Type 0} where
  has_key-insert :
      (k key : String) (v : V) (d : Dict V)
      → has_key k (insert key v d) ≡ (str_eq key k || has_key k d)
  unfolding insert
  has_key-insert k key v [] = ground arith
  has_key-insert k key v ((j, w) ∷ rest) = ground (arith, eq_iff j key, has_key-insert k key v rest)

  insert-distinct :
      (key : String) (v : V) (d : Dict V)
      → is_distinct d ≡ true
      → is_distinct (insert key v d) ≡ true
  unfolding insert
  insert-distinct key v [] h = ground arith
  insert-distinct key v ((j, w) ∷ rest) h = ground (
    arith,
    h,
    eq_iff j key,
    eq_iff key j,
    has_key-insert j key v rest,
    insert-distinct key v rest,
  )

  has_key-delete :
      (k key : String) (d : Dict V) → has_key k d ≡ false → has_key k (delete key d) ≡ false
  unfolding delete
  has_key-delete k key [] h = refl
  has_key-delete k key ((j, w) ∷ rest) h = ground (arith, h, has_key-delete k key rest)

  delete-distinct :
      (key : String) (d : Dict V) → is_distinct d ≡ true → is_distinct (delete key d) ≡ true
  unfolding delete
  delete-distinct key [] h = refl
  delete-distinct key ((j, w) ∷ rest) h =
      ground (arith, h, has_key-delete j key rest, delete-distinct key rest)

  delete-absent : (key : String) (d : Dict V) → has_key key d ≡ false → delete key d ≡ d
  unfolding delete
  delete-absent key [] h = refl
  delete-absent key ((j, w) ∷ rest) h = ground (arith, h, delete-absent key rest)

waits-delete :
    (p : Wanted → Bool) (key : String) (fs : Dict Flight) (f : Flight)
    → is_distinct fs ≡ true
    → lookup key fs ≡ some f
    → waits p (delete key fs) + among p f.waiting ≡ waits p fs
unfolding delete lookup
waits-delete p key [] f h found = absurd (ground arith)
waits-delete p key ((j, g) ∷ rest) f h found =
    ground (arith, h, found, eq_iff j key, delete-absent key rest, waits-delete p key rest f)

module _ {N : Type 0} ⦃n : Number N⦄ (cfg : MarketConfig N) (p : Wanted → Bool) where
  waits-join :
      (key : String) (call : Wanted) (fs : Dict Flight)
      → waits p (insert key (join cfg call (lookup key fs)) fs) ≡ one_if (p call) + waits p fs
  unfolding insert lookup
  waits-join key (c, r) [] = ground arith
  waits-join key (c, r) ((j, g) ∷ rest) =
      ground (arith, waits-join key (c, r) rest, among-append p g.waiting ((c, r) ∷ []))

  answered-answer_all :
      (now : ℕ) (a : Answer N) (ws : List Wanted)
      → answered p (answer_all cfg now a ws) ≡ among p ws
  answered-answer_all now a [] = refl
  answered-answer_all now a (w ∷ ws) = ground (arith, answered-answer_all now a ws)

  resolve_request-wanted_by : (r : PartialRequest) → resolve_request cfg r ≡ wanted_by cfg r
  unfolding resolve_request
  resolve_request-wanted_by r = ground arith

  abbrev pub accounted : MarketService N → ℕ
  accounted s = answered p s.answers + waits p s.in_flight

  get_market_data-accounted :
      (caller : ℕ) (request : PartialRequest) (now : ℕ) (available : Bool) (s : MarketService N)
      → is_distinct s.in_flight ≡ true
      → let s' = get_market_data cfg caller request now available s in
        (accounted s' ≡ one_if (p (caller, resolve_request cfg request)) + accounted s)
        × (is_distinct s'.in_flight ≡ true)
  unfolding get_market_data
  get_market_data-accounted caller request now available s h =
      let wanted = resolve_request cfg request in
      let key = market_key cfg wanted in
      let flight = join cfg (caller, wanted) (lookup key s.in_flight) in
      elim (hit_cases cfg now (lookup key s.cache)) [
        | inl (entry, hits, found, young) ↦
            let answer : Wanted × ℕ × Answer N =
              ((caller, wanted), now, returned (cached_result cfg now available entry)) in
            ground (arith, h, hits, answered-append p s.answers (answer ∷ []))
        | inr missed ↦ ground (
          arith,
          h,
          missed,
          waits-join key (caller, wanted) s.in_flight,
          insert-distinct key flight s.in_flight,
        )
      ]

  settle_flight-accounted :
      (key : String) (chain : Option (Attributed N)) (checked_at now : ℕ) (available : Bool)
      (s : MarketService N)
      → is_distinct s.in_flight ≡ true
      → let s' = settle_flight cfg key chain checked_at now available s in
        (accounted s' ≡ accounted s) × (is_distinct s'.in_flight ≡ true)
  unfolding settle_flight
  settle_flight-accounted key chain checked_at now available s h =
      elim (Option-cases (lookup key s.in_flight)) [
        | inl absent ↦ ground (arith, h, absent)
        | inr (f, found) ↦
            let answer = (fetch_and_cache cfg f.request chain checked_at now available s.cache).1 in
            ground (
              arith,
              h,
              found,
              waits-delete p key s.in_flight f,
              delete-distinct key s.in_flight,
              answered-append p s.answers (answer_all cfg now answer f.waiting),
              answered-answer_all now answer f.waiting,
            )
      ]

  run_service-accounted :
      (s : MarketService N) (es : List (MarketEvent N))
      → is_distinct s.in_flight ≡ true
      → let s' = run_service cfg s es in
        (accounted s' ≡ accounted s + asked cfg p es) × (is_distinct s'.in_flight ≡ true)
  unfolding run_service
  run_service-accounted s [] h = ground (arith, h)
  run_service-accounted s (asks caller request now available ∷ es) h =
      let (one, kept) = get_market_data-accounted caller request now available s h in
      let next = get_market_data cfg caller request now available s in
      let (more, distinct) = run_service-accounted next es kept in
      let same = ap (λ r. one_if (p (caller, r))) (resolve_request-wanted_by request) in
      (omega (arith, one, more, same), distinct)
  run_service-accounted s (settles key chain checked_at now available ∷ es) h =
      let (one, kept) = settle_flight-accounted key chain checked_at now available s h in
      let next = settle_flight cfg key chain checked_at now available s in
      let (more, distinct) = run_service-accounted next es kept in
      (omega (arith, one, more), distinct)

  -- Over any calls and any settlings in any order, there is never more than one call upstream for a
  -- key, and the calls of any sort, by their caller and the market they want, are as many as the answers
  -- that were given to that sort of call and the calls of that sort that wait: so each call has had
  -- exactly one answer or awaits one, under its own caller and with the market that it wants.
  pub every_call_is_accounted :
      (es : List (MarketEvent N))
      → let s = run_service cfg empty_service es in
        (answered p s.answers + waits p s.in_flight ≡ asked cfg p es)
        × (is_distinct s.in_flight ≡ true)
  every_call_is_accounted es = ground (arith, run_service-accounted empty_service es refl)
