-- ===== src/Client/Printed.antt =====
-- The lines that the client prints for an answer to `--show`, and that they are what it prints.
use request_blocker.Shared.{
  Bool, true, false, ◌&&◌, List, [], ◌∷◌, ◌++◌, append_assoc, ◌≡◌, ◌∙◌, refl, sym, ap, ap₂, list_eq,
  nat_eq, All, length, ◌==◌, if◌then◌else◌,
}
use request_blocker.Text.{Text, codes, split, split-first}
use request_blocker.Proto.{ScopeView}
use request_blocker.Client.Output.{
  newline, header, domain_prefix, ip_prefix, render_items, render_view, render_each,
}

-- A text that is one line.
abbrev pub IsLine : Text → Type 0
IsLine = All (λ c. (c == 0x0a) ≡ false)

pub record IsPlain (v : ScopeView) : Type 0 where
  pub scope : IsLine v.scope
  pub domains : All IsLine v.domains
  pub ips : All IsLine v.ips

unfoldable pub header_line : ScopeView → Text
header_line v = codes "== " ++ (header v ++ codes " ==")

abbrev pub empty_lines : ScopeView → List Text
empty_lines v = if length v.domains == 0 && length v.ips == 0 then codes "  (empty)" ∷ [] else []

unfoldable pub prefixed : Text → List Text → List Text
prefixed prefix [] = []
prefixed prefix (x ∷ xs) = (prefix ++ x) ∷ prefixed prefix xs

-- The lines of one list, the empty one at its end included.
unfoldable pub view_lines : ScopeView → List Text
unfolding header_line prefixed
view_lines v =
    header_line v
    ∷ (empty_lines v ++ (prefixed domain_prefix v.domains ++ (prefixed ip_prefix v.ips ++ [] ∷ [])))

unfoldable pub unlines : List Text → Text
unlines [] = []
unlines (l ∷ ls) = l ++ (newline ++ unlines ls)

unlines-append : (xs ys : List Text) → unlines (xs ++ ys) ≡ unlines xs ++ unlines ys
unfolding unlines
unlines-append [] ys = refl
unlines-append (x ∷ xs) ys =
    rw (unlines-append xs ys) (sym (append_assoc x (newline ++ unlines xs) (unlines ys)))

pub split-unlines : (ls : List Text) → All IsLine ls → split (unlines ls) 0x0a ≡ ls ++ [] ∷ []
unfolding unlines split
split-unlines [] h = refl
split-unlines (l ∷ ls) (h, hs) =
    split-first 0x0a l (unlines ls) h ∙ ap (λ ps. l ∷ ps) (split-unlines ls hs)

unlines-prefixed :
    (prefix : Text) (xs : List Text) → unlines (prefixed prefix xs) ≡ render_items prefix xs
unfolding unlines prefixed render_items
unlines-prefixed prefix [] = refl
unlines-prefixed prefix (x ∷ xs) = rw (unlines-prefixed prefix xs) (append_assoc prefix x _)

unlines-empty_lines :
    (b : Bool)
    → unlines (if b then codes "  (empty)" ∷ [] else []) ≡ (if b then codes "  (empty)\n" else [])
unfolding unlines
unlines-empty_lines true = refl
unlines-empty_lines false = refl

unlines-view_lines : (v : ScopeView) → unlines (view_lines v) ≡ render_view v
unfolding view_lines render_view header_line unlines
unlines-view_lines v =
    ap (λ t. codes "== " ++ t)
      (append_assoc (header v) (codes " ==") _
        ∙ ap (λ t. header v ++ (codes " ==\n" ++ t))
            (unlines-append (empty_lines v) _
              ∙ ap₂ (λ a b. a ++ b)
                  (unlines-empty_lines (length v.domains == 0 && length v.ips == 0))
                  (unlines-append (prefixed domain_prefix v.domains) _
                    ∙ ap₂ (λ a b. a ++ b) (unlines-prefixed domain_prefix v.domains)
                        (unlines-append (prefixed ip_prefix v.ips) ([] ∷ [])
                          ∙ ap (λ a. a ++ newline) (unlines-prefixed ip_prefix v.ips)))))

-- The lines of all lists.
unfoldable pub all_lines : List ScopeView → List Text
all_lines [] = []
all_lines (v ∷ vs) = view_lines v ++ all_lines vs

pub unlines-all_lines : (vs : List ScopeView) → unlines (all_lines vs) ≡ render_each vs
unfolding all_lines render_each unlines
unlines-all_lines [] = refl
unlines-all_lines (v ∷ vs) =
    unlines-append (view_lines v) (all_lines vs)
    ∙ ap₂ (λ a b. a ++ b) (unlines-view_lines v) (unlines-all_lines vs)
