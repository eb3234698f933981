-- ===== src/RateLimit/Bound.antt =====
-- How many requests of one uid the limiter lets through.
use Prim.Native.Nat.{min}
use request_blocker.Shared.{
  ℕ, ◌+◌, ◌-◌, ◌*◌, ◌≤◌, ◌<◌, ◌≡◌, ◌∙◌, refl, ◌==◌, Option, none, some, List, [], ◌∷◌, All, length,
  lookup, nat_eq, nat_beq_iff, Bool-cases, inl, inr, arith, if◌then◌else◌,
}
use request_blocker.RateLimit.{
  WindowCount, RateLimiter, new_rate_limiter, allow, count_request, after, granted, times,
}
use request_blocker.RateLimit.Window.{
  config-allow, lookup-allow_ne, lookup-allow_self, allow-answer, IsCounting, after-IsCounting,
  config-after,
}

-- The limiter for one uid alone: how many of the requests at these times are allowed.
run : ℕ → ℕ → List ℕ → Option WindowCount → ℕ
run limit window [] o = 0
run limit window (now ∷ ts) o =
    let (wc, within) = count_request limit window now o in
    (if within then 1 else 0) + run limit window ts (some wc)

granted-run :
    (uid : ℕ) (reqs : List (ℕ × ℕ)) (r : RateLimiter)
    → granted uid reqs r ≡ run r.limit r.window (times uid reqs) (lookup uid r.counts)
unfolding granted run
granted-run uid [] r = refl
granted-run uid ((u, now) ∷ reqs) r =
    let (l, w) = config-allow u now r in
    elim (Bool-cases (u == uid)) [
      | inr other ↦ rw other (
          ground (
            arith,
            granted-run uid reqs (allow u now r).0,
            l,
            w,
            lookup-allow_ne uid u now r other,
          ))
      | inl same ↦
          let e : u ≡ uid = (nat_beq_iff u uid).0 same in
          rw same (
            ground (
              arith,
              granted-run uid reqs (allow u now r).0,
              l,
              w,
              e,
              lookup-allow_self u now r,
              allow-answer u now r,
            ))
    ]

abbrev Between : ℕ → ℕ → List ℕ → Type 0
Between lo hi = All (λ t. (lo ≤ t) × (t ≤ hi))

-- In the window of an entry that no request outruns, exactly the requests up to the limit pass.
run_in_window :
    (limit window lo : ℕ) (ts : List ℕ) (wc : WindowCount)
    → Between lo (lo + window) ts
    → lo ≤ wc.start
    → run limit window ts (some wc) ≡ min (length ts) (limit - wc.n)
unfolding run count_request
run_in_window limit window lo [] wc _ h = omega arith
run_in_window limit window lo (now ∷ ts) wc (here, later) h = ground (
  arith,
  run_in_window limit window lo ts wc later h,
  run_in_window limit window lo ts (record wc { n = wc.n + 1 }) later h,
)

-- The first request opens a window.
run_fresh :
    (limit window lo : ℕ) (ts : List ℕ)
    → 1 ≤ limit
    → Between lo (lo + window) ts
    → run limit window ts none ≡ min (length ts) limit
unfolding run count_request
run_fresh limit window lo [] pos h = omega arith
run_fresh limit window lo (now ∷ ts) pos (here, later) =
    omega (arith, run_in_window limit window lo ts (record { start = now; n = 1 }) later here.0)

run_twice :
    (limit window lo : ℕ) (ts : List ℕ) (wc : WindowCount)
    → 1 ≤ limit
    → Between lo (lo + window) ts
    → 1 ≤ wc.n
    → run limit window ts (some wc) ≤ (limit - wc.n) + limit
unfolding run count_request
run_twice limit window lo [] wc pos _ h = omega arith
run_twice limit window lo (now ∷ ts) wc pos (here, later) h = ground (
  arith,
  run_in_window limit window lo ts (record { start = now; n = 1 }) later,
  run_twice limit window lo ts wc pos later h,
  run_twice limit window lo ts (record wc { n = wc.n + 1 }) pos later,
)

-- Requests of other uids have no influence: in two sequences in which a uid's own requests have
-- the same times, limiters with the same limit and window that agree on the uid's entry allow
-- the uid the same number.
pub granted_alone :
    (uid : ℕ) (reqs reqs' : List (ℕ × ℕ)) (r r' : RateLimiter)
    → times uid reqs ≡ times uid reqs'
    → r.limit ≡ r'.limit
    → r.window ≡ r'.window
    → lookup uid r.counts ≡ lookup uid r'.counts
    → granted uid reqs r ≡ granted uid reqs' r'
granted_alone uid reqs reqs' r r' ts l w c =
    ground (arith, granted-run uid reqs r, granted-run uid reqs' r')

-- If the limiter has no entry for a uid and its limit is positive, then of the uid's requests
-- within one window's length exactly the first `limit` are allowed, whatever other uids do.
pub granted_first_window :
    (uid lo : ℕ) (reqs : List (ℕ × ℕ)) (r : RateLimiter)
    → 1 ≤ r.limit
    → lookup uid r.counts ≡ none
    → All (λ t. (lo ≤ t) × (t ≤ lo + r.window)) (times uid reqs)
    → granted uid reqs r ≡ min (length (times uid reqs)) r.limit
granted_first_window uid lo reqs r pos new h =
    granted-run uid reqs r ∙ rw new (run_fresh r.limit r.window lo (times uid reqs) pos h)

any_entry :
    (limit window lo : ℕ) (ts : List ℕ) (o : Option WindowCount)
    → 1 ≤ limit
    → Between lo (lo + window) ts
    → ((wc : WindowCount) → o ≡ some wc → 1 ≤ wc.n)
    → run limit window ts o < 2 * limit
any_entry limit window lo ts none pos h started = omega (arith, run_fresh limit window lo ts pos h)
any_entry limit window lo ts (some wc) pos h started =
    omega (arith, run_twice limit window lo ts wc pos h (started wc refl), started wc refl)

config-new :
    (limit window : ℕ)
    → ((new_rate_limiter limit window).limit ≡ limit)
      × ((new_rate_limiter limit window).window ≡ window)
unfolding new_rate_limiter
config-new limit window = (refl, refl)

IsCounting-new : (limit window uid : ℕ) → IsCounting uid (new_rate_limiter limit window)
unfolding new_rate_limiter lookup
IsCounting-new limit window uid wc e = ground arith

-- With a positive limit, in no stretch of time as long as the window does a uid get more
-- than twice the limit, less one, whatever was requested before.
pub granted_lt_twice :
    (limit window uid lo : ℕ) (history reqs : List (ℕ × ℕ))
    → 1 ≤ limit
    → All (λ t. (lo ≤ t) × (t ≤ lo + window)) (times uid reqs)
    → granted uid reqs (after history (new_rate_limiter limit window)) < 2 * limit
granted_lt_twice limit window uid lo history reqs pos h =
    let start = new_rate_limiter limit window in
    let r = after history start in
    let counting = after-IsCounting uid history start (IsCounting-new limit window uid) in
    ground (
      arith,
      config-new limit window,
      config-after history start,
      granted-run uid reqs r,
      any_entry limit window lo (times uid reqs) (lookup uid r.counts) pos h counting,
    )
