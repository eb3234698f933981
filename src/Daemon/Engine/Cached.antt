-- ===== src/Daemon/Engine/Cached.antt =====
-- The cache: pruning, and what a resolution adds.
use request_blocker.Shared.{
  ℕ, ◌&&◌, not, Option, none, some, List, [], ◌∷◌, ◌≡◌, ◌∙◌, refl, arith, list_eq, nat_eq,
  list_beq_iff, contains, contains-nil, contains-cons, Map, IsMap, keys, contains-keys, lookup,
  lookup-insert, lookup-delete, insert, delete, if◌then◌else◌, Bool-cases, inl, inr,
}
use request_blocker.Text.{Text, int_eq}
use request_blocker.Resolver.{Resolved}
use request_blocker.Daemon.Engine.Tables.{Cache, CacheEntry, prune, cache_results}

lookup-prune_keys :
    (wanted ds : List Text) (cache : Cache) (d : Text)
    → lookup d (prune wanted ds cache)
      ≡ (if contains ds d && not (contains wanted d) then none else lookup d cache)
unfolding prune
lookup-prune_keys wanted [] cache d = rw contains-nil
lookup-prune_keys wanted (x ∷ ds) cache d = elim (Bool-cases (contains wanted x)) [
  | inl keep ↦
      rw keep (
        lookup-prune_keys wanted ds cache d
        ∙ ground (arith, contains-cons x ds d, list_beq_iff x d))
  | inr gone ↦ rw gone (
      lookup-prune_keys wanted ds (delete x cache) d
      ∙ ground (arith, contains-cons x ds d, list_beq_iff x d, lookup-delete d x cache))
]

-- Pruning keeps the entries of the wanted domains and no other.
pub lookup-prune :
    (wanted : List Text) (cache : Cache) (d : Text)
    → lookup d (prune wanted (keys cache) cache)
      ≡ (if contains wanted d then lookup d cache else none)
lookup-prune wanted cache d =
    lookup-prune_keys wanted (keys cache) cache d ∙ ground (arith, contains-keys cache d)

abbrev pub entry_or : ℕ → Option Resolved → Option CacheEntry → Option CacheEntry
entry_or expires none old = old
entry_or expires (some r) old = some (record { res = r; expires = expires })

-- A result replaces the entry of its domain; a domain with no result keeps what it had.
pub lookup-cache_results :
    (expires : ℕ) (rs : Map Text Resolved) (cache : Cache) (d : Text)
    → IsMap rs
    → lookup d (cache_results expires rs cache) ≡ entry_or expires (lookup d rs) (lookup d cache)
unfolding cache_results lookup
lookup-cache_results expires [] cache d _ = refl
lookup-cache_results expires ((x, r) ∷ rs) cache d (fresh, h) =
    let entry : CacheEntry = record { res = r; expires = expires } in
    lookup-cache_results expires rs (insert x entry cache) d h
    ∙ ground (arith, list_beq_iff x d, contains-keys rs d, fresh, lookup-insert d x entry cache)
