-- ===== src/RateLimit.antt =====
-- src/backend/api/middleware/rate-limit.ts. The table `rate_limit_window` is a list of its rows, keyed
-- by bucket and window start; the statement of `consume` is one atomic step on it (the row lock of the
-- database), so that calls by several instances are a sequence of steps. A window is positive.
use Prim.Native.String.{String}
use text.Mathlib.Text.{◌==◌ as str_eq}
use buy_not_buy_com.Common.{
  ℕ, ◌+◌, ◌-◌, ◌*◌, ◌/◌, Bool, true, false, ◌&&◌, List, [], ◌∷◌, leb, ◌==◌, if◌then◌else◌, max,
}
pub mod Windows
mod Tests

pub record WindowRow : Type 0 where
  pub bucket : String
  pub window_start : ℕ
  pub count : ℕ

pub record RateLimiter : Type 0 where
  pub max_requests : ℕ
  pub window_ms : ℕ

pub record RateLimitDecision : Type 0 where
  pub allowed : Bool
  pub remaining : ℕ
  pub reset_at : ℕ

abbrev pub is_row : String → ℕ → WindowRow → Bool
is_row key start row = str_eq row.bucket key && row.window_start == start

-- `INSERT … ON CONFLICT (bucket, window_start) DO UPDATE SET count = count + 1`.
pub upsert : String → ℕ → List WindowRow → List WindowRow
upsert key start [] = record { bucket = key; window_start = start; count = 1 } ∷ []
upsert key start (row ∷ rows) =
    if is_row key start row
    then record row { count = row.count + 1 } ∷ rows
    else row ∷ upsert key start rows

-- The count of the row with the key, 0 if there is none.
pub count_of : String → ℕ → List WindowRow → ℕ
count_of key start [] = 0
count_of key start (row ∷ rows) =
    if is_row key start row then row.count else count_of key start rows

pub window_start_of : RateLimiter → ℕ → ℕ
window_start_of l now = now / l.window_ms * l.window_ms

-- `RETURNING count` reads the row that the statement wrote.
pub consume : RateLimiter → String → ℕ → List WindowRow → List WindowRow × RateLimitDecision
consume l key now rows =
    let start = window_start_of l now in
    let rows' = upsert key start rows in
    let count = count_of key start rows' in
    (
      rows',
      record {
        allowed = leb count l.max_requests;
        remaining = l.max_requests - count;
        reset_at = start + l.window_ms;
      },
    )

pub reset : List WindowRow → List WindowRow
reset rows = []

-- `retryAfterSeconds` of the error for a refused client.
pub rate_limit_error_seconds : ℕ → ℕ
rate_limit_error_seconds retry_after_seconds = max 1 retry_after_seconds
