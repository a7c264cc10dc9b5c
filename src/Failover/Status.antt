-- ===== src/Failover/Status.antt =====
-- The kind and the status that a failed chain reports.
use buy_not_buy_com.Common.{◌≡◌, ◌↔◌, true, ◌&&◌, ◌||◌, not, List, arith}
use buy_not_buy_com.Failover.{
  kind_unavailable, kind_timeout, kind_rate_limited, VenueFailure, has_kind, aggregate_kind,
  aggregate_status, status_for_kind, chain_error, is_retryable,
}

-- The status of a chain that failed is 504 when some venue timed out and none was rate limited or
-- unavailable, whatever the other venues said; it is 503 when some venue was rate limited; and 502
-- otherwise. The caller may try again unless some venue was rate limited.
pub chain_error_exact :
    (failures : List VenueFailure)
    → let e = chain_error failures in
      ((e.status_code ≡ 504) ↔ (
        (has_kind kind_timeout failures
          && not (has_kind kind_rate_limited failures || has_kind kind_unavailable failures))
        ≡ true))
      × ((e.status_code ≡ 503) ↔ (has_kind kind_rate_limited failures ≡ true))
      × (is_retryable e.kind ≡ not (has_kind kind_rate_limited failures))
unfolding aggregate_kind aggregate_status status_for_kind is_retryable
chain_error_exact failures = ground arith
