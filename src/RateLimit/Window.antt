-- ===== src/RateLimit/Window.antt =====
-- One step of the limiter, as the entry of one uid sees it.
use request_blocker.Shared.{
  ℕ, ◌≤◌, ◌≡◌, ◌∙◌, refl, ◌==◌, false, Option, none, some, List, [], ◌∷◌, lookup, lookup-insert,
  nat_eq, nat_beq_iff, Bool-cases, inl, inr, arith,
}
use request_blocker.RateLimit.{WindowCount, RateLimiter, allow, count_request, after}

pub config-allow :
    (uid now : ℕ) (r : RateLimiter)
    → ((allow uid now r).0.limit ≡ r.limit) × ((allow uid now r).0.window ≡ r.window)
unfolding allow
config-allow uid now r = (refl, refl)

pub lookup-allow_ne :
    (uid u now : ℕ) (r : RateLimiter)
    → (u == uid) ≡ false
    → lookup uid (allow u now r).0.counts ≡ lookup uid r.counts
unfolding allow
lookup-allow_ne uid u now r h =
    lookup-insert uid u (count_request r.limit r.window now (lookup u r.counts)).0 r.counts ∙ rw h

pub lookup-allow_self :
    (uid now : ℕ) (r : RateLimiter)
    → lookup uid (allow uid now r).0.counts
      ≡ some (count_request r.limit r.window now (lookup uid r.counts)).0
unfolding allow
lookup-allow_self uid now r =
    lookup-insert uid uid (count_request r.limit r.window now (lookup uid r.counts)).0 r.counts
    ∙ rw ((nat_beq_iff uid uid).1 refl)

pub allow-answer :
    (uid now : ℕ) (r : RateLimiter)
    → (allow uid now r).1 ≡ (count_request r.limit r.window now (lookup uid r.counts)).1
unfolding allow
allow-answer uid now r = refl

-- Every entry has counted the request that made it.
abbrev pub IsCounting : ℕ → RateLimiter → Type 0
IsCounting uid r = (wc : WindowCount) → lookup uid r.counts ≡ some wc → 1 ≤ wc.n

count_request_counts :
    (limit window now : ℕ) (o : Option WindowCount)
    → ((wc : WindowCount) → o ≡ some wc → 1 ≤ wc.n)
    → 1 ≤ (count_request limit window now o).0.n
unfolding count_request
count_request_counts limit window now none h = omega arith
count_request_counts limit window now (some wc) h = ground (arith, h wc refl)

pub allow-IsCounting :
    (uid u now : ℕ) (r : RateLimiter) → IsCounting uid r → IsCounting uid (allow u now r).0
allow-IsCounting uid u now r h wc e = elim (Bool-cases (u == uid)) [
  | inl same ↦
      let e' : u ≡ uid = (nat_beq_iff u uid).0 same in
      ground (
        arith,
        e',
        lookup-allow_self uid now r,
        count_request_counts r.limit r.window now (lookup uid r.counts) h,
      )
  | inr other ↦ h wc (ground (arith, lookup-allow_ne uid u now r other))
]

pub after-IsCounting :
    (uid : ℕ) (reqs : List (ℕ × ℕ)) (r : RateLimiter)
    → IsCounting uid r
    → IsCounting uid (after reqs r)
unfolding after
after-IsCounting uid [] r h = h
after-IsCounting uid ((u, now) ∷ reqs) r h =
    after-IsCounting uid reqs (allow u now r).0 (allow-IsCounting uid u now r h)

pub config-after :
    (reqs : List (ℕ × ℕ)) (r : RateLimiter)
    → ((after reqs r).limit ≡ r.limit) × ((after reqs r).window ≡ r.window)
unfolding after
config-after [] r = (refl, refl)
config-after ((u, now) ∷ reqs) r =
    ground (arith, config-after reqs (allow u now r).0, config-allow u now r)
