-- ===== src/ProviderHealth/State.antt =====
-- When a venue is worth asking, and what the reports of failures do to it.
use Prim.Native.String.{String}
use buy_not_buy_com.Common.{
  ℕ, ◌+◌, ◌≤◌, ◌≡◌, refl, ap, ◌∙◌, ◌↔◌, ◌⊎◌, Bool, true, false, Option, some, none, List, [], ◌∷◌,
  ltb, if◌then◌else◌, arith,
}
use buy_not_buy_com.Breaker.{BreakerState, is_opened, is_probing}
use buy_not_buy_com.ProviderHealth.{
  Normaliser, rate_limited, ProviderFailureReport, ProviderRecord, Records, find, record_for,
  or_empty, record_key, failed, throttled, state_of, provider_health_state, is_provider_available,
  record_provider_failure, record_provider_rate_limit,
}
use buy_not_buy_com.ProviderHealth.Apart.{key_eq_iff, find-put}

-- The record that the module has of a market of a venue, or the empty one.
abbrev pub record_of : Normaliser → String → String → Records → ProviderRecord
unfolding record_key
record_of n p m records = or_empty (find (record_key n p m) records)

abbrev pub has_answered : ProviderRecord → Bool
has_answered r = elim r.last_success_at [ none ↦ false | some at ↦ true ]

pub record_of-record_for :
    (n : Normaliser) (p m : String) (change : ProviderRecord → ProviderRecord) (records : Records)
    → record_of n p m (record_for (record_key n p m) change records)
      ≡ change (record_of n p m records)
unfolding record_for record_key or_empty
record_of-record_for n p m change records =
    ap or_empty
      (find-put (record_key n p m) (record_key n p m) (change (record_of n p m records)) records)
    ∙ rw ((key_eq_iff (record_key n p m) (record_key n p m)).1 refl) refl

module _ (n : Normaliser) (p m : String) where
  -- The refusals of an open breaker, each with its time and status.
  abbrev pub report_refusals : List (ℕ × Option ℕ) → Records → Records
  report_refusals [] records = records
  report_refusals ((now, status) ∷ rest) records = report_refusals rest (
      record_provider_failure n p m now (record { http_status = status; definitive = some false })
        records)

module _ (n : Normaliser) (degraded_after : ℕ) (p m : String) (circuit : BreakerState) where
  -- A venue is asked for a price of a market exactly when its breaker is not open, no window of a rate
  -- limit is running, and the breaker is probing, or no failure was counted since the last success, or
  -- it has answered before.
  pub is_provider_available_exact :
      (now : ℕ) (records : Records)
      → let r = record_of n p m records in
        (is_provider_available n degraded_after p m circuit now records ≡ true) ↔ (
          (is_opened circuit ≡ false)
          × (r.rate_limited_until ≤ now)
          × ((is_probing circuit ≡ true)
              ⊎ ((r.consecutive_failures ≡ 0) ⊎ (has_answered r ≡ true))))
  unfolding is_provider_available provider_health_state state_of
  is_provider_available_exact now records = ground arith

  -- Reports of refusals, any number of them, change neither the state of the market nor the number of
  -- failures that is counted.
  pub refusals_uncounted :
      (refusals : List (ℕ × Option ℕ)) (at : ℕ) (records : Records)
      → let after = report_refusals n p m refusals records in
        (provider_health_state n degraded_after p m circuit at after
          ≡ provider_health_state n degraded_after p m circuit at records)
        × ((record_of n p m after).consecutive_failures
            ≡ (record_of n p m records).consecutive_failures)
  unfolding provider_health_state state_of record_provider_failure failed
  refusals_uncounted [] at records = (refl, refl)
  refusals_uncounted ((now, status) ∷ rest) at records =
      let report : ProviderFailureReport = record {
        http_status = status;
        definitive = some false;
      } in
      let next = record_provider_failure n p m now report records in
      ground (
        arith,
        refusals_uncounted rest at next,
        record_of-record_for n p m (failed now report) records,
      )

  -- A rate limit makes the state of the market `rate_limited` exactly as long as its window runs, if the
  -- breaker is not open; after the window the state is the one that it had been before, and the limit is
  -- not counted as a failure.
  pub record_provider_rate_limit_window :
      (now again retry_after : ℕ) (status : Option ℕ) (at : ℕ) (records : Records)
      → is_opened circuit ≡ false
      → (record_of n p m records).rate_limited_until ≤ at
      → provider_health_state n degraded_after p m circuit at
          (record_provider_rate_limit n p m now again retry_after status records)
        ≡ (if ltb at (again + retry_after)
            then rate_limited
            else provider_health_state n degraded_after p m circuit at records)
  unfolding provider_health_state state_of record_provider_rate_limit throttled
  record_provider_rate_limit_window now again retry_after status at records closed over = ground (
    arith,
    closed,
    over,
    record_of-record_for n p m (throttled now again retry_after status) records,
  )
