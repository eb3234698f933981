-- ===== src/Backend/Iptables/Matching.antt =====
-- When a firewall is the one that a state asks for.
use request_blocker.Shared.{
  true, List, [], ◌∷◌, ◌≡◌, ◌∙◌, refl, arith, list_eq, nat_eq, length, contains, IsMap, Bool-cases,
  inl, inr,
}
use request_blocker.Text.{Text, ℤ, int_eq}
use request_blocker.Backend.State.{
  Family, v4, v6, State, has_user, sorted_uids, contains-sorted_uids, same_uids, same_uids-has_user,
  blocked,
}
use request_blocker.Backend.Nft.Commands.{SetName, global_set, uid_set}
use request_blocker.Backend.Nft.Kernel.{family_eq}
use request_blocker.Backend.Nft.Scripted.{no_user-addresses}
use request_blocker.Backend.Iptables.Commands.{live, SetCommand, build_set_delta, chain_rules}
use request_blocker.Backend.Iptables.Tool.{Members, Firewall, effects, drops}
use request_blocker.Backend.Iptables.Payloads.{asked, covered, effects-set_delta, chain_rules-drops}

-- The firewall has the rules and the elements of the state. Sets of users that are gone may stay.
pub record Matches (fw : Firewall) (s : State) : Type 0 where
  pub jump : (f : Family) → fw.jump f ≡ true
  pub rules : List ℤ
  pub chain : (f : Family) → fw.chain f ≡ chain_rules rules
  pub users : (u : ℤ) → contains rules u ≡ has_user u s.per_user
  pub member :
      (t : SetName) (x : Text)
      → covered rules t ≡ true
      → fw.member (live t) x ≡ contains (asked s t) x

pub Matches-drops :
    (fw : Firewall) (s : State)
    → Matches fw s
    → (u : ℤ) (f : Family) (x : Text) → drops fw u f x ≡ blocked s u f x
unfolding drops
Matches-drops fw s m u f x =
    rw (m.jump f, m.chain f)
      (chain_rules-drops m.rules fw.member u f x ∙ elim (Bool-cases (has_user u s.per_user)) [
        | inl known ↦ ground (
          arith,
          m.users u,
          known,
          m.member (global_set f) x refl,
          m.member (uid_set f u) x (m.users u ∙ known),
        )
        | inr unknown ↦ ground (
          arith,
          m.users u,
          unknown,
          m.member (global_set f) x refl,
          no_user-addresses f u s.per_user x unknown,
        )
      ])

pub family_eq_refl : (f : Family) → family_eq f f ≡ true
unfolding family_eq
family_eq_refl v4 = refl
family_eq_refl v6 = refl

pub delta_effects :
    (p s : State) (fw : Firewall)
    → IsMap p.per_user
    → IsMap s.per_user
    → same_uids p.per_user s.per_user ≡ true
    → Matches fw p
    → Matches
        (record fw { member = effects (build_set_delta p s (sorted_uids s.per_user)) fw.member })
        s
delta_effects p s fw up us same m = record {
  jump = m.jump;
  rules = m.rules;
  chain = m.chain;
  users = λ u. m.users u ∙ same_users u;
  member = λ t x k.
      effects-set_delta p s (sorted_uids s.per_user) fw.member t x
      ∙ ground (arith, m.member t x k, also t k);
}
  where
    same_users : (u : ℤ) → has_user u p.per_user ≡ has_user u s.per_user
    same_users = same_uids-has_user p.per_user s.per_user up us same

    also : (t : SetName) → covered m.rules t ≡ true → covered (sorted_uids s.per_user) t ≡ true
    also (global_set f) k = refl
    also (uid_set f u) k =
        ground (arith, m.users u, same_users u, contains-sorted_uids s.per_user u)

no_commands : (cs : List SetCommand) (m : Members) → length cs ≡ 0 → effects cs m ≡ m
unfolding effects
no_commands [] m _ = refl
no_commands (c ∷ cs) m h = absurd (omega arith)

pub empty_delta :
    (p s : State) (fw : Firewall)
    → length (build_set_delta p s (sorted_uids s.per_user)) ≡ 0
    → Matches
        (record fw { member = effects (build_set_delta p s (sorted_uids s.per_user)) fw.member })
        s
    → Matches fw s
empty_delta p s fw h m =
    rw (no_commands (build_set_delta p s (sorted_uids s.per_user)) fw.member h) at m
