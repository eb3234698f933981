-- ===== src/Backend/Nft/Loops.antt =====
-- The effect of each loop of the scripts.
use request_blocker.Shared.{
  Bool, ◌||◌, ◌&&◌, not, List, [], ◌∷◌, ◌≡◌, ◌∙◌, refl, arith, nat_eq, list_eq, contains,
  contains-nil, if◌then◌else◌,
}
use request_blocker.Text.{Text, ℤ, int_eq}
use request_blocker.Backend.State.{Family, v4, v6, diff_strings, contains-added, contains-removed}
use request_blocker.Backend.Nft.Commands.{
  SetName, uid_sets, uid_chains, vmap_rule, write_elements, delete_some, write_element_delta,
}
use request_blocker.Backend.Nft.Kernel.{Ruleset, family_eq, set_eq, effect, effects, effects-append}

-- The chains and rules are the same.
pub record SameRules (r r' : Ruleset) : Type 0 where
  pub hooked : r'.hooked ≡ r.hooked
  pub global_rule : (f : Family) → r'.global_rule f ≡ r.global_rule f
  pub uid_rule : (f : Family) (u : ℤ) → r'.uid_rule f u ≡ r.uid_rule f u
  pub vmap : (u : ℤ) → r'.vmap u ≡ r.vmap u

pub SameRules-refl : (r : Ruleset) → SameRules r r
SameRules-refl r = record {
  hooked = refl;
  global_rule = λ f. refl;
  uid_rule = λ f u. refl;
  vmap = λ u. refl;
}

pub SameRules-trans : {r s t : Ruleset} → SameRules r s → SameRules s t → SameRules r t
SameRules-trans h k = record {
  hooked = k.hooked ∙ h.hooked;
  global_rule = λ f. k.global_rule f ∙ h.global_rule f;
  uid_rule = λ f u. k.uid_rule f u ∙ h.uid_rule f u;
  vmap = λ u. k.vmap u ∙ h.vmap u;
}

pub effects-uid_sets : (uids : List ℤ) (r : Ruleset) → effects (uid_sets uids) r ≡ r
unfolding uid_sets effects effect
effects-uid_sets [] r = refl
effects-uid_sets (uid ∷ uids) r = effects-uid_sets uids r

pub effects-uid_chains :
    (uids : List ℤ) (r : Ruleset)
    → ((effects (uid_chains uids) r).hooked ≡ r.hooked)
      × ((effects (uid_chains uids) r).global_rule ≡ r.global_rule)
      × ((effects (uid_chains uids) r).vmap ≡ r.vmap)
      × ((effects (uid_chains uids) r).member ≡ r.member)
unfolding uid_chains effects effect
effects-uid_chains [] r = (refl, refl, refl, refl)
effects-uid_chains (uid ∷ uids) r = effects-uid_chains uids _

pub uid_rule-uid_chains :
    (uids : List ℤ) (r : Ruleset) (f : Family) (u : ℤ)
    → (effects (uid_chains uids) r).uid_rule f u ≡ (contains uids u || r.uid_rule f u)
unfolding uid_chains effects effect contains family_eq
uid_rule-uid_chains [] r f u = refl
uid_rule-uid_chains (uid ∷ uids) r v4 u = uid_rule-uid_chains uids _ v4 u ∙ ground arith
uid_rule-uid_chains (uid ∷ uids) r v6 u = uid_rule-uid_chains uids _ v6 u ∙ ground arith

pub vmap-vmap_rule :
    (uids : List ℤ) (r : Ruleset) (u : ℤ)
    → (effects (vmap_rule uids) r).vmap u ≡ (contains uids u || r.vmap u)
unfolding vmap_rule effects effect
vmap-vmap_rule [] r u = rw contains-nil
vmap-vmap_rule (uid ∷ uids) r u = refl

pub effects-vmap_rule :
    (uids : List ℤ) (r : Ruleset)
    → ((effects (vmap_rule uids) r).hooked ≡ r.hooked)
      × ((effects (vmap_rule uids) r).global_rule ≡ r.global_rule)
      × ((effects (vmap_rule uids) r).uid_rule ≡ r.uid_rule)
      × ((effects (vmap_rule uids) r).member ≡ r.member)
unfolding vmap_rule effects effect
effects-vmap_rule [] r = (refl, refl, refl, refl)
effects-vmap_rule (uid ∷ uids) r = (refl, refl, refl, refl)

pub SameRules-write_elements :
    (s : SetName) (xs : List Text) (r : Ruleset) → SameRules r (effects (write_elements s xs) r)
unfolding write_elements effects effect
SameRules-write_elements s [] r = SameRules-refl r
SameRules-write_elements s (x ∷ xs) r = record {
  hooked = refl;
  global_rule = λ f. refl;
  uid_rule = λ f u. refl;
  vmap = λ u. refl;
}

pub member-write_elements :
    (s : SetName) (xs : List Text) (r : Ruleset) (t : SetName) (x : Text)
    → (effects (write_elements s xs) r).member t x ≡ ((set_eq s t && contains xs x) || r.member t x)
unfolding write_elements effects effect
member-write_elements s [] r t x = ground (arith, contains-nil x)
member-write_elements s (y ∷ ys) r t x = refl

SameRules-delete_some :
    (s : SetName) (xs : List Text) (r : Ruleset) → SameRules r (effects (delete_some s xs) r)
unfolding delete_some effects effect
SameRules-delete_some s [] r = SameRules-refl r
SameRules-delete_some s (x ∷ xs) r = record {
  hooked = refl;
  global_rule = λ f. refl;
  uid_rule = λ f u. refl;
  vmap = λ u. refl;
}

member-delete_some :
    (s : SetName) (xs : List Text) (r : Ruleset) (t : SetName) (x : Text)
    → (effects (delete_some s xs) r).member t x
      ≡ (not (set_eq s t && contains xs x) && r.member t x)
unfolding delete_some effects effect
member-delete_some s [] r t x = ground (arith, contains-nil x)
member-delete_some s (y ∷ ys) r t x = refl

pub SameRules-write_element_delta :
    (s : SetName) (prev next : List Text) (r : Ruleset)
    → SameRules r (effects (write_element_delta s prev next) r)
unfolding write_element_delta
SameRules-write_element_delta s prev next r =
    let (added, removed) = diff_strings prev next in
    rw (effects-append (write_elements s added) (delete_some s removed) r)
      (SameRules-trans (SameRules-write_elements s added r) (SameRules-delete_some s removed _))

-- What one delta does to a membership, of which `p` and `n` say what it was and shall be.
abbrev pub moved : Bool → Bool → Bool → Bool
moved p n m = not (p && not n) && ((n && not p) || m)

pub member-write_element_delta :
    (s : SetName) (prev next : List Text) (r : Ruleset) (t : SetName) (x : Text)
    → (effects (write_element_delta s prev next) r).member t x ≡ (
        if set_eq s t
        then moved (contains prev x) (contains next x) (r.member t x)
        else r.member t x)
unfolding write_element_delta
member-write_element_delta s prev next r t x =
    let (added, removed) = diff_strings prev next in
    rw (effects-append (write_elements s added) (delete_some s removed) r) (
      member-delete_some s removed (effects (write_elements s added) r) t x
      ∙ ground (
        arith,
        member-write_elements s added r t x,
        contains-added prev next x,
        contains-removed prev next x,
      ))
