-- ===== src/RateLimit.antt =====
-- cmd/webblockd/ratelimit.go: a fixed-window request limiter for each uid.
mod Window
pub mod Bound
pub mod Tests
use request_blocker.Shared.{
  ℕ, ◌+◌, ◌-◌, ◌==◌, ◌&&◌, Bool, true, false, ◌||◌, not, Option, none, some, List, [], ◌∷◌, Map,
  lookup, insert, nat_eq, ltb, leb, if◌then◌else◌,
}

-- Times are nanoseconds of the monotonic clock that `time.Now` reads.
pub record WindowCount : Type 0 where
  pub start : ℕ
  pub n : ℕ

pub record RateLimiter : Type 0 where
  pub limit : ℕ
  pub window : ℕ
  pub counts : Map ℕ WindowCount

unfoldable pub new_rate_limiter : ℕ → ℕ → RateLimiter
new_rate_limiter limit window = record { limit = limit; window = window; counts = [] }

-- What one request does to the entry of its uid.
unfoldable pub count_request : ℕ → ℕ → ℕ → Option WindowCount → WindowCount × Bool
count_request limit window now none = (record { start = now; n = 1 }, true)
count_request limit window now (some wc) =
    if ltb window (now - wc.start)
    then (record { start = now; n = 1 }, true)
    else if leb limit wc.n
    then (wc, false)
    else (record wc { n = wc.n + 1 }, true)

-- `allow`, at the time `now`.
unfoldable pub allow : ℕ → ℕ → RateLimiter → RateLimiter × Bool
unfolding count_request
allow uid now r =
    let (wc, within) = count_request r.limit r.window now (lookup uid r.counts) in
    (record r { counts = insert uid wc r.counts }, within)

-- The answers to a sequence of requests, each a uid and a time.
pub allow_all : List (ℕ × ℕ) → RateLimiter → List Bool
allow_all [] r = []
allow_all ((uid, now) ∷ reqs) r = let (r', b) = allow uid now r in b ∷ allow_all reqs r'

pub after : List (ℕ × ℕ) → RateLimiter → RateLimiter
after [] r = r
after ((uid, now) ∷ reqs) r = after reqs (allow uid now r).0

-- How many requests of a uid are allowed in a sequence of requests of all uids.
pub granted : ℕ → List (ℕ × ℕ) → RateLimiter → ℕ
granted uid [] r = 0
granted uid ((u, now) ∷ reqs) r =
    (if u == uid && (allow u now r).1 then 1 else 0) + granted uid reqs (allow u now r).0

-- The times of a uid's own requests.
abbrev pub times : ℕ → List (ℕ × ℕ) → List ℕ
times uid [] = []
times uid ((u, now) ∷ reqs) =
    let rest = times uid reqs in let own = now ∷ rest in if u == uid then own else rest
