-- ===== src/Resolver/Order.antt =====
-- `ResolveMany`: its results do not depend on the order in which the workers finish.
use request_blocker.Shared.{
  Bool, true, false, ◌||◌, ◌&&◌, not, Option, none, some, is_some, List, [], ◌∷◌, ◌≡◌, ◌∙◌, refl,
  arith, list_eq, nat_eq, list_beq_iff, contains, contains-nil, contains-cons, IsMap, lookup,
  lookup-insert, insert, insert-IsMap, if◌then◌else◌, Option-cases, inl, inr,
}
use request_blocker.Text.{Text}
use request_blocker.Resolver.{Resolved, Dns, Outcomes, outcomes, collect, resolve, resolve_many}

-- The outcomes to come, on top of what has been collected.
abbrev result_or : Bool → Option Resolved → Option Resolved → Option Resolved
result_or true (some r) old = some r
result_or true none old = old
result_or false new old = old

collect-results :
    (dns : Dns) (ds : List Text) (o : Outcomes) (d : Text)
    → IsMap o.results
    → IsMap (collect (outcomes dns ds) o).results
      × (lookup d (collect (outcomes dns ds) o).results
          ≡ result_or (contains ds d) (resolve dns d) (lookup d o.results))
      × (contains (collect (outcomes dns ds) o).failures d
          ≡ ((contains ds d && not (is_some (resolve dns d))) || contains o.failures d))
unfolding collect outcomes
collect-results dns [] o d h = (h, rw (contains-nil d) refl, rw (contains-nil d) refl)
collect-results dns (x ∷ ds) o d h = elim (Option-cases (resolve dns x)) [
  | inl failed ↦
      let o' : Outcomes = record o { failures = x ∷ o.failures } in
      let (is_map, found, missing) = collect-results dns ds o' d h in
      rw failed (
        is_map,
        found ∙ ground (arith, failed, contains-cons x ds d, list_beq_iff x d),
        missing
            ∙ ground (
              arith,
              failed,
              contains-cons x ds d,
              list_beq_iff x d,
              contains-cons x o.failures d,
            ),
      )
  | inr (r, fine) ↦
      let o' : Outcomes = record o { results = insert x r o.results } in
      let (is_map, found, missing) = collect-results dns ds o' d (insert-IsMap x r o.results h) in
      rw fine (
        is_map,
        found
            ∙ ground (
              arith,
              fine,
              contains-cons x ds d,
              list_beq_iff x d,
              lookup-insert d x r o.results,
            ),
        missing ∙ ground (arith, fine, contains-cons x ds d, list_beq_iff x d),
      )
]

-- In whatever order the domains' outcomes arrive, the results are a map that has for each
-- requested domain the result of its own lookup and nothing else, and the failures are the
-- requested domains whose lookup fails.
pub resolve_many_lem :
    (dns : Dns) (arrival : List Text) (d : Text)
    → IsMap (resolve_many dns arrival).results
      × (lookup d (resolve_many dns arrival).results
          ≡ (if contains arrival d then resolve dns d else none))
      × (contains (resolve_many dns arrival).failures d
          ≡ (contains arrival d && not (is_some (resolve dns d))))
unfolding resolve_many
resolve_many_lem dns arrival d =
    let (is_map, found, missing) =
      collect-results dns arrival (record { results = []; failures = [] }) d tt in
    (is_map, found ∙ ground (arith, lookup_nil d), missing ∙ ground (arith, contains-nil d))
  where
    lookup_nil : (k : Text) → lookup {V = Resolved} k [] ≡ none
    lookup_nil k = unfold lookup in refl
