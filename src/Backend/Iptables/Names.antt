-- ===== src/Backend/Iptables/Names.antt =====
-- The names of the sets of internal/backend/iptables.go, and how `listIpsets` reads them.
use request_blocker.Shared.{
  Bool, true, false, List, [], ◌∷◌, ◌++◌, ◌≡◌, ◌≢◌, refl, ap, arith, list_eq, nat_eq, ◌==◌,
  list_beq_iff, contains, contains-cons, contains-nil, length, Bool-cases, inl, inr, All,
  All-append, if◌then◌else◌,
}
use request_blocker.Text.{Text, codes, itoa, itoa-no_space, is_space, trim_space, has_prefix}
use request_blocker.Backend.State.{Family, v4, v6}
use request_blocker.Backend.Nft.Commands.{SetName, global_set, uid_set}
use request_blocker.Backend.Iptables.Commands.{Slot, slot_name, set_name, suffix}
use request_blocker.Backend.Iptables.Defs.{nonempty_lines}

abbrev pub NoSpace : Text → Type 0
NoSpace = All (λ c. is_space c ≡ false)

suffix-NoSpace : (f : Family) → NoSpace (suffix f)
unfolding suffix is_space
suffix-NoSpace v4 = (refl, tt)
suffix-NoSpace v6 = (refl, tt)

set_name-NoSpace : (s : SetName) → NoSpace (set_name s)
unfolding set_name is_space
set_name-NoSpace (global_set f) =
    All-append _ (codes "webblk_g_") _ (ground arith) (suffix-NoSpace f)
set_name-NoSpace (uid_set f uid) =
    All-append _ (codes "webblk_u" ++ itoa uid ++ codes "_") _
      (All-append _ (codes "webblk_u" ++ itoa uid) _
        (All-append _ (codes "webblk_u") _ (ground arith) (itoa-no_space uid)) (ground arith))
      (suffix-NoSpace f)

pub slot_name-NoSpace : (s : Slot) → NoSpace (slot_name s)
unfolding slot_name is_space
slot_name-NoSpace s = All-append _ (set_name s.set) _ (set_name-NoSpace s.set) (end s.tmp)
  where
    end : (tmp : Bool) → NoSpace (if tmp then codes "_t" else [])
    end true = ground arith
    end false = tt

pub slot_name-ours : (s : Slot) → has_prefix (slot_name s) (codes "webblk_") ≡ true
unfolding slot_name set_name has_prefix
slot_name-ours s = go s.set
  where
    go :
        (t : SetName)
        → has_prefix (set_name t ++ (if s.tmp then codes "_t" else [])) (codes "webblk_") ≡ true
    go (global_set f) = refl
    go (uid_set f uid) = refl

pub slot_name-nonempty : (s : Slot) → slot_name s ≢ []
unfolding slot_name set_name
slot_name-nonempty s = go s.set
  where
    go : (t : SetName) → set_name t ++ (if s.tmp then codes "_t" else []) ≢ []
    go (global_set f) = λ e. cc
    go (uid_set f uid) = λ e. cc

pub contains-nonempty_lines :
    (lines : List Text) (t : Text)
    → trim_space t ≡ t
    → t ≢ []
    → contains lines t ≡ true
    → contains (nonempty_lines lines) t ≡ true
unfolding nonempty_lines
contains-nonempty_lines [] t e h k = ground (arith, contains-nil t, k)
contains-nonempty_lines (l ∷ ls) t e h k = elim (Bool-cases (l == t)) [
  | inl here ↦
      let l_eq = (list_beq_iff l t).0 here in
      ground (
        arith,
        contains-cons (trim_space l) (nonempty_lines ls) t,
        ap trim_space l_eq,
        e,
        list_beq_iff (trim_space l) t,
        some_length t h,
      )
  | inr elsewhere ↦ ground (
    arith,
    elsewhere,
    contains-cons l ls t,
    contains-cons (trim_space l) (nonempty_lines ls) t,
    contains-nonempty_lines ls t e h,
  )
]
  where
    some_length : (s : Text) → s ≢ [] → (length s == 0) ≡ false
    some_length [] h = absurd (h refl)
    some_length (c ∷ s) h = ground arith
