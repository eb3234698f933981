-- ===== src/Validate/Normalize/Userinfo.antt =====
-- What normalization does to a text with an `@`, wherever that stands.
use request_blocker.Shared.{
  ℕ, zero, suc, ◌+◌, ◌≤◌, ◌<◌, ◌≡◌, ◌≢◌, refl, false, ◌⊎◌, some, [], ◌∷◌, ◌++◌, All, All-append,
  nat_eq, contains, length, arith, ok,
}
use request_blocker.Text.{
  Text, codes, index-lacks, last_index, last_index-lacks, drop, is_space, trim_space_none,
  All-lacks,
}
use request_blocker.Validate.Domain.{validate_domain}
use request_blocker.Validate.Domain.Hostname.{validate_domain_iff}
use request_blocker.Validate.Normalize.{to_lower, strip_scheme, strip_userinfo, normalize_domain}
use request_blocker.Validate.Normalize.Fixed.{
  IsHostCharacter, hostname-characters, no_dot_last, strip_from_none, strip_port_none,
  trim_suffix_none,
}

-- Visible ASCII, save capital letters and the colon.
abbrev pub IsPlain : ℕ → Type 0
IsPlain c = (0x21 ≤ c) × (c < 0x7f) × ((c < b'A') ⊎ (b'Z' < c)) × (c ≢ b':')

host-IsPlain : (d : Text) → All IsHostCharacter d → All IsPlain d
host-IsPlain [] _ = tt
host-IsPlain (c ∷ d) (h, hs) = (ground arith, host-IsPlain d hs)

plain-no_space : (d : Text) → All IsPlain d → All (λ c. is_space c ≡ false) d
unfolding is_space
plain-no_space [] _ = tt
plain-no_space (c ∷ d) (h, hs) = (ground arith, plain-no_space d hs)

plain-lower : (lower : ℕ → ℕ) (d : Text) → All IsPlain d → to_lower lower d ≡ d
unfolding to_lower
plain-lower lower [] _ = refl
plain-lower lower (c ∷ d) (h, hs) = ground (arith, plain-lower lower d hs)

plain-scheme : (d : Text) → All IsPlain d → strip_scheme d ≡ d
unfolding strip_scheme
plain-scheme d h =
    rw (
      index-lacks d b':' (codes "//") (All-lacks IsPlain b':' d (λ k. ground arith) h),
      strip_scheme,
    )

last_at :
    (pre o : Text) → contains o b'@' ≡ false → last_index (pre ++ b'@' ∷ o) b'@' ≡ some (length pre)
unfolding last_index
last_at [] o h = rw (last_index-lacks o b'@' h, last_index)
last_at (c ∷ pre) o h = ground (arith, last_at pre o h)

drop-append : (pre o : Text) (c n : ℕ) → n ≡ length pre + 1 → drop n (pre ++ c ∷ o) ≡ o
unfolding drop
drop-append pre o c zero h = absurd (omega arith)
drop-append [] [] c (suc zero) h = refl
drop-append [] (d ∷ o) c (suc zero) h = refl
drop-append [] o c (suc (suc n)) h = absurd (omega arith)
drop-append (x ∷ pre) o c (suc n) h = drop-append pre o c n (omega arith)

strip_userinfo-append :
    (pre o : Text) → contains o b'@' ≡ false → strip_userinfo (pre ++ b'@' ∷ o) ≡ o
unfolding strip_userinfo
strip_userinfo-append pre o h =
    rw (last_at pre o h, strip_userinfo) (drop-append pre o b'@' (length pre + 1) refl)

-- Whatever stands before an `@`, a host, a path and a query included, is taken for userinfo:
-- where it consists of printable ASCII characters but upper case, colon and space, the normal
-- form is the valid name behind the `@`.
pub normalize_domain-userinfo :
    (lower : ℕ → ℕ) (pre o : Text)
    → All IsPlain pre
    → validate_domain o ≡ ok tt
    → normalize_domain lower (pre ++ b'@' ∷ o) ≡ o
unfolding normalize_domain
normalize_domain-userinfo lower pre o plain valid =
    let name = (validate_domain_iff o).0 valid in
    let chars = hostname-characters o name in
    let whole = All-append IsPlain pre (b'@' ∷ o) plain (omega arith, host-IsPlain o chars) in
    let text = pre ++ b'@' ∷ o in
    ground (
      arith,
      trim_space_none text (plain-no_space text whole),
      plain-lower lower text whole,
      plain-scheme text whole,
      strip_userinfo-append pre o (All-lacks IsHostCharacter b'@' o (λ k. ground arith) chars),
      strip_from_none o chars,
      strip_port_none o chars,
      trim_suffix_none o (codes ".") (no_dot_last o name),
      not_empty pre,
    )
  where
    not_empty : (p : Text) → length (p ++ b'@' ∷ o) ≢ 0
    not_empty [] e = omega arith
    not_empty (c ∷ p) e = omega arith
