-- ===== src/Store/BlockList/Tests.antt =====
-- Tests of the blocklist's operations.
use request_blocker.Shared.{
  ◌≡◌, refl, true, false, ◌||◌, ◌&&◌, not, ◌+◌, [], ◌∷◌, List, arith, list_eq, nat_eq, list_beq,
  list_beq_iff, contains, contains-nil, contains-cons, length, sort,
}
use request_blocker.Text.{Text, codes, text_ord, text_le}
use request_blocker.Store.BlockList.{add_unique, remove_all, IsCanonical}
use request_blocker.Store.BlockList.Laws.{add_unique_lem, remove_all_lem}

abbrev two_domains : List Text
two_domains = codes "a.com" ∷ codes "b.com" ∷ []

abbrev more : List Text
more = codes "c.com" ∷ []

two_domains-IsCanonical : IsCanonical two_domains
unfolding contains list_beq text_le
two_domains-IsCanonical = record {
  sorted = ((refl, tt), (tt, tt));
  unique = (refl, (refl, tt));
  filled = refl;
}

-- store_test.go: a second item and one that is there already.
add_unique_test :
    add_unique (codes "b.com" ∷ []) (codes "a.com" ∷ codes "b.com" ∷ []) ≡ (two_domains, 1)
unfolding add_unique contains list_beq sort text_le
add_unique_test = refl

remove_all_test :
    remove_all two_domains (codes "a.com" ∷ codes "x.com" ∷ []) ≡ (codes "b.com" ∷ [], 1)
unfolding remove_all contains list_beq sort text_le
remove_all_test = refl

more-filled : contains more [] ≡ false
unfolding contains list_beq
more-filled = refl

add_unique_example :
    IsCanonical (add_unique two_domains more).0
    × ((v : Text)
        → contains (add_unique two_domains more).0 v ≡ (contains two_domains v || contains more v))
    × (length (add_unique two_domains more).0
        ≡ length two_domains + (add_unique two_domains more).1)
add_unique_example = add_unique_lem two_domains more two_domains-IsCanonical more-filled

remove_all_example :
    IsCanonical (remove_all two_domains more).0
    × ((v : Text)
        → contains (remove_all two_domains more).0 v
          ≡ (contains two_domains v && not (contains more v)))
    × (length (remove_all two_domains more).0 + (remove_all two_domains more).1
        ≡ length two_domains)
remove_all_example = remove_all_lem two_domains more two_domains-IsCanonical

apart : (v : Text) → contains two_domains v ≡ true → contains more v ≡ false
apart v h = ground (
  arith,
  contains-cons (codes "a.com") (codes "b.com" ∷ []) v,
  contains-cons (codes "b.com") [] v,
  contains-nil v,
  contains-cons (codes "c.com") [] v,
  list_beq_iff (codes "a.com") v,
  list_beq_iff (codes "b.com") v,
  list_beq_iff (codes "c.com") v,
)
