-- ===== src/RateLimit/Tests.antt =====
-- The limiter on concrete requests.
use Prim.Native.String.{String}
use buy_not_buy_com.Common.{ℕ, List, [], ◌∷◌}
use buy_not_buy_com.RateLimit.{RateLimiter}

abbrev limiter : RateLimiter
limiter = record { max_requests = 2; window_ms = 1000 }

abbrev requests : List (String × ℕ)
requests =
    ("10.0.0.1", 5100)
    ∷ ("10.0.0.2", 5200)
    ∷ ("10.0.0.1", 5300)
    ∷ ("10.0.0.1", 5999)
    ∷ ("10.0.0.1", 6000)
    ∷ []
