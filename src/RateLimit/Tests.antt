-- ===== src/RateLimit/Tests.antt =====
-- Tests of the rate limiter.
use request_blocker.Shared.{
  ◌≡◌, refl, none, true, false, [], ◌∷◌, List, ℕ, nat_eq, lookup, insert, ◌<◌, ◌*◌, arith,
}
use request_blocker.RateLimit.{RateLimiter, new_rate_limiter, allow, allow_all, after, granted}
use request_blocker.RateLimit.Bound.{granted_lt_twice}

abbrev limiter : RateLimiter
limiter = new_rate_limiter 2 10

abbrev requests : List (ℕ × ℕ)
requests = (1000, 5) ∷ (1001, 6) ∷ (1000, 7) ∷ (1000, 8) ∷ []

-- ratelimit_test.go: each uid has its own window, and a new one begins after the old one.
allow_all_test :
    allow_all ((1000, 5) ∷ (1000, 6) ∷ (1000, 7) ∷ (1001, 7) ∷ (1000, 16) ∷ []) limiter
    ≡ true ∷ true ∷ false ∷ true ∷ true ∷ []
unfolding allow_all allow lookup insert new_rate_limiter
allow_all_test = refl

no_entry : lookup 1000 limiter.counts ≡ none
no_entry = unfold lookup new_rate_limiter in refl

granted_lt_twice_example : granted 1000 requests (after requests (new_rate_limiter 2 10)) < 2 * 2
granted_lt_twice_example =
    granted_lt_twice 2 10 1000 5 requests requests (omega arith)
      ((omega arith, omega arith), ((omega arith, omega arith), ((omega arith, omega arith), tt)))
