-- ===== src/Store/BlockList/Fields.antt =====
-- What `AddDomains` and `AddIPs`, `RemoveDomains` and `RemoveIPs` do to the fields of a list.
use request_blocker.Shared.{◌||◌, ◌&&◌, not, List, ◌≡◌, ◌∙◌, arith, list_eq, nat_eq, contains}
use request_blocker.Text.{Text}
use request_blocker.Store.BlockList.{
  BlockList, is_empty, sorted_unique, add_unique, remove_all, add_domains, add_ips, remove_domains,
  remove_ips,
}
use request_blocker.Store.BlockList.Canonical.{contains-sorted_unique}
use request_blocker.Store.BlockList.Add.{contains-add_unique}
use request_blocker.Store.BlockList.Remove.{contains-remove_all}

abbrev pub added_to : List Text → List Text → BlockList → BlockList
added_to domains ips bl = (add_ips ips (add_domains domains bl).0).0

abbrev pub removed_from : List Text → List Text → BlockList → BlockList
removed_from domains ips bl = (remove_ips ips (remove_domains domains bl).0).0

pub contains-added_to :
    (domains ips : List Text) (bl : BlockList) (v : Text)
    → (contains (sorted_unique (added_to domains ips bl).domains) v
        ≡ ((contains bl.domains v || contains domains v) && not (is_empty v)))
      × (contains (sorted_unique (added_to domains ips bl).ips) v
          ≡ ((contains bl.ips v || contains ips v) && not (is_empty v)))
unfolding add_domains add_ips
contains-added_to domains ips bl v = (
  contains-sorted_unique (add_unique bl.domains domains).0 v
      ∙ ground (arith, contains-add_unique bl.domains domains v),
  contains-sorted_unique (add_unique bl.ips ips).0 v
      ∙ ground (arith, contains-add_unique bl.ips ips v),
)

pub contains-removed_from :
    (domains ips : List Text) (bl : BlockList) (v : Text)
    → (contains (sorted_unique (removed_from domains ips bl).domains) v
        ≡ ((contains bl.domains v && not (contains domains v)) && not (is_empty v)))
      × (contains (sorted_unique (removed_from domains ips bl).ips) v
          ≡ ((contains bl.ips v && not (contains ips v)) && not (is_empty v)))
unfolding remove_domains remove_ips
contains-removed_from domains ips bl v = (
  contains-sorted_unique (remove_all bl.domains domains).0 v
      ∙ ground (arith, contains-remove_all bl.domains domains v),
  contains-sorted_unique (remove_all bl.ips ips).0 v
      ∙ ground (arith, contains-remove_all bl.ips ips v),
)
