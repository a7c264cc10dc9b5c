-- ===== src/Failover.antt =====
-- src/backend/market/failover.provider.ts, class FailoverProvider: venues are numbered from 0, the
-- primary. For a request that no other one overlaps, what a call of each venue would give is a function
-- of its number; Overlap has the requests that overlap, and Alone says how the two agree. `onSwitch` is
-- left out. The kinds of failure and `statusForKind` are those of src/backend/errors/provider.error.ts.
use Prim.Native.String.{String}
use buy_not_buy_com.Common.{
  ℕ, zero, suc, ◌+◌, ◌%◌, Bool, true, false, not, ◌&&◌, ◌||◌, Option, some, none, List, [], ◌∷◌,
  ◌++◌, leb, ◌==◌, length, get_elem?, if◌then◌else◌,
}
pub mod Rotation
pub mod Order
pub mod Handback
pub mod Status
pub mod Overlap
pub mod Alone
mod Tests

pub data ProviderFailureKind : Type 0 where
  kind_unavailable kind_timeout kind_rate_limited kind_invalid_response : ProviderFailureKind
  kind_circuit_open kind_insufficient_history : ProviderFailureKind

unfoldable pub status_for_kind : ProviderFailureKind → ℕ
status_for_kind kind_timeout = 504
status_for_kind kind_rate_limited = 503
status_for_kind kind_insufficient_history = 503
status_for_kind kind_invalid_response = 502
status_for_kind kind_unavailable = 502
status_for_kind kind_circuit_open = 502

-- The getter `retryable` of a ProviderError.
pub is_retryable : ProviderFailureKind → Bool
is_retryable kind_unavailable = true
is_retryable kind_timeout = true
is_retryable _ = false

-- `reason` and `code` of a failure are texts for the log.
pub record VenueFailure : Type 0 where
  pub venue : String
  pub reason : String
  pub kind : Option ProviderFailureKind
  pub code : Option String
  pub http_status : Option ℕ

-- What `toVenueFailure` reads of the error that a call threw.
pub record Thrown : Type 0 where
  pub reason : String
  pub kind : Option ProviderFailureKind
  pub code : Option String
  pub http_status : Option ℕ

abbrev pub to_venue_failure : String → Thrown → VenueFailure
to_venue_failure venue error = record {
  venue = venue;
  reason = error.reason;
  kind = error.kind;
  code = error.code;
  http_status = error.http_status;
}

pub data CallResult (A : Type 0) : Type 0 where
  gave : A → CallResult A
  threw : Thrown → CallResult A

pub record FailoverProvider : Type 0 where
  pub venues : List String
  pub recovery_successes : ℕ
  pub preferred : ℕ
  pub consecutive_backup_successes : ℕ

pub record ProviderError : Type 0 where
  pub kind : ProviderFailureKind
  pub status_code : ℕ
  pub attempted : List VenueFailure

pub data ChainResult (A : Type 0) : Type 0 where
  answered_by : String → A → ChainResult A
  chain_failed : ProviderError → ChainResult A

pub switched : FailoverProvider → Bool
switched f = not (f.preferred == 0)

-- The getter `activeVenue`.
abbrev pub or_primary : Option String → List String → String
or_primary (some name) venues = name
or_primary none [] = ""
or_primary none (primary ∷ backups) = primary

pub active_venue : FailoverProvider → String
active_venue f = or_primary (get_elem? f.venues f.preferred) f.venues

pub record_venue_success : ℕ → FailoverProvider → FailoverProvider
record_venue_success index f =
    let successes = f.consecutive_backup_successes + 1 in
    if index == f.preferred
    then f
    else if f.preferred == 0
    then record f { preferred = index; consecutive_backup_successes = 0 }
    else if leb f.recovery_successes successes
    then record f { preferred = 0; consecutive_backup_successes = 0 }
    else record f { consecutive_backup_successes = successes }

abbrev pub is_kind : ProviderFailureKind → ProviderFailureKind → Bool
is_kind kind_unavailable kind_unavailable = true
is_kind kind_timeout kind_timeout = true
is_kind kind_rate_limited kind_rate_limited = true
is_kind kind_invalid_response kind_invalid_response = true
is_kind kind_circuit_open kind_circuit_open = true
is_kind kind_insufficient_history kind_insufficient_history = true
is_kind _ _ = false

abbrev pub fails_as : ProviderFailureKind → Option ProviderFailureKind → Bool
fails_as k none = false
fails_as k (some j) = is_kind k j

pub has_kind : ProviderFailureKind → List VenueFailure → Bool
has_kind k [] = false
has_kind k (f ∷ fs) = fails_as k f.kind || has_kind k fs

pub all_kind : ProviderFailureKind → List VenueFailure → Bool
all_kind k [] = true
all_kind k (f ∷ fs) = fails_as k f.kind && all_kind k fs

pub aggregate_kind : List VenueFailure → ProviderFailureKind
unfolding has_kind
aggregate_kind failures =
    if has_kind kind_rate_limited failures
    then kind_rate_limited
    else if has_kind kind_timeout failures && has_kind kind_unavailable failures
    then kind_unavailable
    else if has_kind kind_timeout failures
    then kind_timeout
    else kind_unavailable

pub aggregate_status : List VenueFailure → ProviderFailureKind → ℕ
unfolding all_kind status_for_kind
aggregate_status failures kind =
    if is_kind kind kind_timeout && (leb 1 (length failures) && all_kind kind_timeout failures)
    then status_for_kind kind_timeout
    else status_for_kind kind

-- Only a failure of the primary resets the count.
pub record_venue_failure : ℕ → FailoverProvider → FailoverProvider
record_venue_failure index f =
    if index == 0 then record f { consecutive_backup_successes = 0 } else f

abbrev pub chain_error : List VenueFailure → ProviderError
unfolding aggregate_kind aggregate_status
chain_error failures =
    let kind = aggregate_kind failures in
    record { kind = kind; status_code = aggregate_status failures kind; attempted = failures }

module _ {A : Type 0} (call : ℕ → CallResult A) where
  -- The loop of `runAttributed`, with the rounds left, the step, the failures so far, and beside them the
  -- venues asked so far. The index is read from the state at each step; the failures of this request
  -- leave its preference alone.
  pub try_venues :
      ℕ
      → ℕ
      → FailoverProvider
      → List VenueFailure
      → List ℕ
      → FailoverProvider × ChainResult A × List ℕ
  unfolding record_venue_success record_venue_failure
  try_venues zero step f failures asked = (f, chain_failed (chain_error failures), asked)
  try_venues (suc left) step f failures asked =
      let index = (f.preferred + step) % length f.venues in
      elim (get_elem? f.venues index) [
        | none ↦ try_venues left (step + 1) f failures asked
        | some name ↦ elim (call index) [
          | gave value ↦ (record_venue_success index f, answered_by name value, asked ++ index ∷ [])
          | threw error ↦
              try_venues left (step + 1) (record_venue_failure index f)
                (failures ++ to_venue_failure name error ∷ []) (asked ++ index ∷ [])
        ]
      ]

  -- The new state, the result, and the venues asked in their order.
  pub run_attributed : FailoverProvider → FailoverProvider × ChainResult A × List ℕ
  unfolding try_venues
  run_attributed f = try_venues (length f.venues) 0 f [] []
