-- ===== src/Client/Lines.antt =====
-- The lines that the client prints for an answer to `--show`.
use request_blocker.Shared.{
  Bool, true, false, ◌&&◌, ◌||◌, List, [], ◌∷◌, ◌++◌, ◌≡◌, ◌∙◌, refl, sym, ap, arith, list_eq,
  list_beq, nat_beq_iff, nat_eq, All, All-append, contains, contains-nil, contains-cons,
  contains-append, length, ◌==◌, if◌then◌else◌,
}
use request_blocker.Text.{Text, codes, split}
use request_blocker.Proto.{ScopeView}
use request_blocker.Client.Output.{header, domain_prefix, ip_prefix, render_each, render_views}
use request_blocker.Client.Printed.{
  IsLine, IsPlain, header_line, empty_lines, prefixed, view_lines, split-unlines, all_lines,
  unlines-all_lines,
}

prefixed-IsLine :
    (prefix : Text) (xs : List Text)
    → IsLine prefix
    → All IsLine xs
    → All IsLine (prefixed prefix xs)
unfolding prefixed
prefixed-IsLine prefix [] p h = tt
prefixed-IsLine prefix (x ∷ xs) p (hx, h) =
    (All-append _ prefix x p hx, prefixed-IsLine prefix xs p h)

empty_lines-IsLine : (b : Bool) → All IsLine (if b then codes "  (empty)" ∷ [] else [])
empty_lines-IsLine true = (ground arith, tt)
empty_lines-IsLine false = tt

header-IsLine : (v : ScopeView) → IsLine v.scope → IsLine (header_line v)
unfolding header_line
header-IsLine v h =
    All-append _ (codes "== ") _ (ground arith)
      (All-append _ (header v) _ (go v.read_only) (ground arith))
  where
    go : (b : Bool) → IsLine (if b then v.scope ++ codes " [read-only]" else v.scope)
    go true = All-append _ v.scope _ h (ground arith)
    go false = h

view_lines-IsLine : (v : ScopeView) → IsPlain v → All IsLine (view_lines v)
unfolding view_lines
view_lines-IsLine v p = (
  header-IsLine v p.scope,
  All-append _ (empty_lines v) _ (empty_lines-IsLine (length v.domains == 0 && length v.ips == 0)) (
      All-append _ (prefixed domain_prefix v.domains) _
        (prefixed-IsLine domain_prefix v.domains (ground arith) p.domains)
        (All-append _ (prefixed ip_prefix v.ips) _
          (prefixed-IsLine ip_prefix v.ips (ground arith) p.ips) (tt, tt))),
)

all_lines-IsLine : (vs : List ScopeView) → All IsPlain vs → All IsLine (all_lines vs)
unfolding all_lines
all_lines-IsLine [] h = tt
all_lines-IsLine (v ∷ vs) (p, h) =
    All-append _ (view_lines v) _ (view_lines-IsLine v p) (all_lines-IsLine vs h)

same_prefix : (p a b : Text) → ((p ++ a) == (p ++ b)) ≡ (a == b)
unfolding list_beq
same_prefix [] a b = refl
same_prefix (c ∷ p) a b = ground (arith, same_prefix p a b, nat_beq_iff c c)

contains-prefixed :
    (prefix : Text) (xs : List Text) (x : Text)
    → contains (prefixed prefix xs) (prefix ++ x) ≡ contains xs x
unfolding prefixed
contains-prefixed prefix [] x = contains-nil (prefix ++ x) ∙ sym (contains-nil x)
contains-prefixed prefix (y ∷ xs) x = ground (
  arith,
  contains-prefixed prefix xs x,
  contains-cons (prefix ++ y) (prefixed prefix xs) (prefix ++ x),
  contains-cons y xs x,
  same_prefix prefix y x,
)

contains-ip_lines :
    (ips : List Text) (d : Text) → contains (prefixed ip_prefix ips) (domain_prefix ++ d) ≡ false
unfolding prefixed contains list_beq
contains-ip_lines [] d = refl
contains-ip_lines (x ∷ ips) d = contains-ip_lines ips d

contains-empty_lines :
    (b : Bool) (d : Text)
    → contains (if b then codes "  (empty)" ∷ [] else []) (domain_prefix ++ d) ≡ false
unfolding contains list_beq
contains-empty_lines true d = refl
contains-empty_lines false d = refl

-- The lines of the domains are no lines of anything else.
contains-view_lines :
    (v : ScopeView) (d : Text) → contains (view_lines v) (domain_prefix ++ d) ≡ contains v.domains d
unfolding view_lines
contains-view_lines v d =
    let line = domain_prefix ++ d in
    let ips = prefixed ip_prefix v.ips ++ [] ∷ [] in
    let domains = prefixed domain_prefix v.domains in
    ground (
      arith,
      contains-cons (header_line v) (empty_lines v ++ (domains ++ ips)) line,
      header_apart v d,
      contains-append (empty_lines v) (domains ++ ips) line,
      contains-empty_lines (length v.domains == 0 && length v.ips == 0) d,
      contains-append domains ips line,
      contains-prefixed domain_prefix v.domains d,
      contains-append (prefixed ip_prefix v.ips) ([] ∷ []) line,
      contains-ip_lines v.ips d,
      last_line d,
    )
  where
    header_apart : (v : ScopeView) (d : Text) → (header_line v == (domain_prefix ++ d)) ≡ false
    header_apart v d = unfold header_line list_beq in refl

    last_line : (d : Text) → contains ([] ∷ []) (domain_prefix ++ d) ≡ false
    last_line d = unfold contains list_beq in refl

pub any_lists : List ScopeView → Text → Bool
any_lists [] d = false
any_lists (v ∷ vs) d = contains v.domains d || any_lists vs d

contains-all_lines :
    (vs : List ScopeView) (d : Text) → contains (all_lines vs) (domain_prefix ++ d) ≡ any_lists vs d
unfolding all_lines any_lists
contains-all_lines [] d = contains-nil (domain_prefix ++ d)
contains-all_lines (v ∷ vs) d = ground (
  arith,
  contains-append (view_lines v) (all_lines vs) (domain_prefix ++ d),
  contains-view_lines v d,
  contains-all_lines vs d,
)

-- What the client prints for an answer to `--show`, cut into lines, has a line for a domain
-- exactly if one of the lists holds it, where no text of the answer holds a line break.
pub render_views-lists :
    (vs : List ScopeView) (d : Text)
    → All IsPlain vs
    → contains (split (render_views vs) 0x0a) (domain_prefix ++ d) ≡ any_lists vs d
unfolding render_views
render_views-lists [] d h = none_configured
  where
    none_configured : contains (split (render_views []) 0x0a) (domain_prefix ++ d) ≡ any_lists [] d
    none_configured = unfold contains split list_beq any_lists in refl
render_views-lists (v ∷ vs) d h =
    let lines = all_lines (v ∷ vs) in
    let line = domain_prefix ++ d in
    ap (λ t. contains (split t 0x0a) line) (some_views ∙ sym (unlines-all_lines (v ∷ vs)))
    ∙ ap (λ ls. contains ls line) (split-unlines lines (all_lines-IsLine (v ∷ vs) h))
    ∙ contains-append lines ([] ∷ []) line
    ∙ ground (arith, contains-all_lines (v ∷ vs) d, last_line)
  where
    last_line : contains ([] ∷ []) (domain_prefix ++ d) ≡ false
    last_line = unfold contains list_beq in refl

    some_views : render_views (v ∷ vs) ≡ render_each (v ∷ vs)
    some_views = ground arith
