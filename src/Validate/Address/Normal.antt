-- ===== src/Validate/Address/Normal.antt =====
-- `NormalizeIP` on its own results.
use request_blocker.Shared.{
  ◌≡◌, ◌⊎◌, ◌∙◌, sym, ap, ap₂, Bool, true, false, ◌&&◌, none, some, [], ◌∷◌, nat_eq, ◌==◌, arith,
  Option-cases, subst, inl, inr, ok,
}
use request_blocker.Text.{Text, trim_space}
use request_blocker.Validate.Address.Parse.{Ip, Ip4, from4, to4, parse_ip}
use request_blocker.Validate.Address.Print.{v4_string, v6_string, ip_string, normalize_ip}
use request_blocker.Validate.Address.Dotted.{IsOctets, parse_ip-v4_string, normalize_ip-v4_string}
use request_blocker.Validate.Address.Canonical.{
  ip_string-v6_string, parse_ip-v6_string, normalize_ip-v6_string,
}
use request_blocker.Validate.Address.Collected.{OnSome, on_if}
use request_blocker.Validate.Address.WellFormed.{IsIp, parse_ip-IsIp}

to4-IsOctets : (ip : Ip) → IsIp ip → OnSome IsOctets (to4 ip)
unfolding to4
to4-IsOctets [] h = tt
to4-IsOctets (g0 ∷ []) h = tt
to4-IsOctets (g0 ∷ g1 ∷ []) h = tt
to4-IsOctets (g0 ∷ g1 ∷ g2 ∷ []) h = tt
to4-IsOctets (g0 ∷ g1 ∷ g2 ∷ g3 ∷ []) h = tt
to4-IsOctets (g0 ∷ g1 ∷ g2 ∷ g3 ∷ g4 ∷ []) h = tt
to4-IsOctets (g0 ∷ g1 ∷ g2 ∷ g3 ∷ g4 ∷ g5 ∷ []) h = tt
to4-IsOctets (g0 ∷ g1 ∷ g2 ∷ g3 ∷ g4 ∷ g5 ∷ g6 ∷ []) h = tt
to4-IsOctets (g0 ∷ g1 ∷ g2 ∷ g3 ∷ g4 ∷ g5 ∷ g6 ∷ g7 ∷ [])
      (len, (_, (_, (_, (_, (_, (_, (h6, (h7, _))))))))) =
    on_if IsOctets (g0 == 0 && g1 == 0 && g2 == 0 && g3 == 0 && g4 == 0 && g5 == 0xffff) _ none
      (λ four. record {
        a = omega (arith, h6);
        b = omega arith;
        c = omega (arith, h7);
        d = omega arith;
      })
      (λ six. tt)
to4-IsOctets (g0 ∷ g1 ∷ g2 ∷ g3 ∷ g4 ∷ g5 ∷ g6 ∷ g7 ∷ g8 ∷ gs) h = tt

-- An address that is an IPv4 one is the sixteen bytes of its four octets.
from4-to4 : (ip : Ip) → OnSome (λ q. from4 q ≡ ip) (to4 ip)
unfolding to4
from4-to4 [] = tt
from4-to4 (g0 ∷ []) = tt
from4-to4 (g0 ∷ g1 ∷ []) = tt
from4-to4 (g0 ∷ g1 ∷ g2 ∷ []) = tt
from4-to4 (g0 ∷ g1 ∷ g2 ∷ g3 ∷ []) = tt
from4-to4 (g0 ∷ g1 ∷ g2 ∷ g3 ∷ g4 ∷ []) = tt
from4-to4 (g0 ∷ g1 ∷ g2 ∷ g3 ∷ g4 ∷ g5 ∷ []) = tt
from4-to4 (g0 ∷ g1 ∷ g2 ∷ g3 ∷ g4 ∷ g5 ∷ g6 ∷ []) = tt
from4-to4 (g0 ∷ g1 ∷ g2 ∷ g3 ∷ g4 ∷ g5 ∷ g6 ∷ g7 ∷ []) =
    on_if (λ q. from4 q ≡ g0 ∷ g1 ∷ g2 ∷ g3 ∷ g4 ∷ g5 ∷ g6 ∷ g7 ∷ [])
      (g0 == 0 && g1 == 0 && g2 == 0 && g3 == 0 && g4 == 0 && g5 == 0xffff) _ none
      (λ four. ground (arith, four)) (λ six. tt)
from4-to4 (g0 ∷ g1 ∷ g2 ∷ g3 ∷ g4 ∷ g5 ∷ g6 ∷ g7 ∷ g8 ∷ gs) = tt

-- The address behind an accepted text.
abbrev pub Accepted : Text → Text → Bool → Type 0
Accepted t canon v6 =
    (ip : Ip) × IsIp ip
    × (parse_ip (trim_space t) ≡ some ip)
    × (((q : Ip4) × (to4 ip ≡ some q) × (canon ≡ v4_string q) × (v6 ≡ false))
        ⊎ ((to4 ip ≡ none) × (canon ≡ ip_string ip) × (v6 ≡ true)))

pub normalize_ip-Accepted :
    (t canon : Text) (v6 : Bool) → normalize_ip t ≡ ok (canon, v6) → Accepted t canon v6
unfolding normalize_ip
normalize_ip-Accepted t canon v6 h = elim (Option-cases (parse_ip (trim_space t))) [
  | inl refused ↦ absurd (ground (arith, refused, h))
  | inr (ip, parsed) ↦
      let is : IsIp ip = subst (OnSome IsIp) parsed (parse_ip-IsIp (trim_space t)) in
      elim (Option-cases (to4 ip)) [
        | inl six ↦ (
          ip,
          is,
          parsed,
          inr (six, ground (arith, parsed, six, h), ground (arith, parsed, six, h)),
        )
        | inr (q, four) ↦ (
          ip,
          is,
          parsed,
          inl (q, four, ground (arith, parsed, four, h), ground (arith, parsed, four, h)),
        )
      ]
]

-- The text that `NormalizeIP` returns denotes the address that was typed, and is its own normal
-- form, of the same family.
pub normalize_ip-canonical :
    (t canon : Text) (v6 : Bool)
    → normalize_ip t ≡ ok (canon, v6)
    → (parse_ip canon ≡ parse_ip (trim_space t)) × (normalize_ip canon ≡ ok (canon, v6))
normalize_ip-canonical t canon v6 h =
    let (ip, is, parsed, kind) = normalize_ip-Accepted t canon v6 h in
    elim kind [
      | inl (q, four, text, low) ↦
          let octets : IsOctets q = subst (OnSome IsOctets) four (to4-IsOctets ip is) in
          let same : from4 q ≡ ip = subst (OnSome (λ q'. from4 q' ≡ ip)) four (from4-to4 ip) in
          (
            ap parse_ip text ∙ parse_ip-v4_string q octets ∙ ap some same ∙ sym parsed,
            ap normalize_ip text
                ∙ normalize_ip-v4_string q octets
                ∙ sym (ap₂ (λ s b. ok (s, b)) text low),
          )
      | inr (six, text, high) ↦
          let text' : canon ≡ v6_string ip = text ∙ ip_string-v6_string ip six in
          (
            ap parse_ip text' ∙ parse_ip-v6_string ip is.0 is.1 ∙ sym parsed,
            ap normalize_ip text'
                ∙ normalize_ip-v6_string ip is.0 is.1 six
                ∙ sym (ap₂ (λ s b. ok (s, b)) text' high),
          )
    ]
