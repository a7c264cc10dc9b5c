-- ===== src/RateLimit/Windows.antt =====
-- What the limiter lets through.
use Prim.Native.String.{String}
use text.Mathlib.Text.{◌==◌ as str_eq}
use text.Mathlib.TextEquality.{eq_iff}
use buy_not_buy_com.Common.{
  ℕ, ◌+◌, ◌-◌, ◌≤◌, ◌<◌, ◌≡◌, min, Bool, ◌&&◌, List, [], ◌∷◌, arith, ◌==◌, if◌then◌else◌,
}
use buy_not_buy_com.RateLimit.{WindowRow, RateLimiter, upsert, count_of, window_start_of, consume}

-- The upsert counts one more for its own key, and leaves every other row's count alone.
count_of-upsert :
    (key j : String) (start t : ℕ) (rows : List WindowRow)
    → count_of j t (upsert key start rows)
      ≡ (if str_eq key j && start == t then count_of j t rows + 1 else count_of j t rows)
unfolding upsert count_of
count_of-upsert key j start t [] = ground arith
count_of-upsert key j start t (row ∷ rows) = ground (
  arith,
  eq_iff row.bucket key,
  eq_iff row.bucket j,
  eq_iff key j,
  count_of-upsert key j start t rows,
)

module _ (l : RateLimiter) (key : String) (start : ℕ) where
  -- Whether a request is the client's, in the window.
  abbrev pub is_counted : String × ℕ → Bool
  is_counted (k, now) = str_eq k key && window_start_of l now == start

  -- Of the requests, in the order in which the table serves them: how many are counted, and how many
  -- of these are allowed.
  abbrev pub attempts : List (String × ℕ) → ℕ
  attempts [] = 0
  attempts (r ∷ rs) = (if is_counted r then 1 else 0) + attempts rs

  abbrev pub grants : List WindowRow → List (String × ℕ) → ℕ
  grants rows [] = 0
  grants rows ((k, now) ∷ rs) =
      (if is_counted (k, now) && (consume l k now rows).1.allowed then 1 else 0)
      + grants (consume l k now rows).0 rs

  grants_from :
      (rows : List WindowRow) (rs : List (String × ℕ))
      → grants rows rs ≡ min (l.max_requests - count_of key start rows) (attempts rs)
  unfolding consume
  grants_from rows [] = omega arith
  grants_from rows ((k, now) ∷ rs) =
      let s = window_start_of l now in
      ground (
        arith,
        grants_from (upsert k s rows) rs,
        count_of-upsert k key s start rows,
        count_of-upsert k k s s rows,
        eq_iff k key,
      )

  -- Over any requests of any clients at any times, served from an empty table, a client is allowed
  -- in a window as many requests as it makes there, up to the maximum and not beyond.
  pub grants_exact : (rs : List (String × ℕ)) → grants [] rs ≡ min l.max_requests (attempts rs)
  unfolding count_of
  grants_exact rs = omega (arith, grants_from [] rs)

-- With a window of positive length, the window that a decision names ends after the request, at most
-- one window later.
pub reset_at_bounds :
    (l : RateLimiter) (key : String) (now : ℕ) (rows : List WindowRow)
    → 0 < l.window_ms
    → (now < (consume l key now rows).1.reset_at)
      × ((consume l key now rows).1.reset_at ≤ now + l.window_ms)
unfolding consume window_start_of
reset_at_bounds l key now rows h = grind arith
