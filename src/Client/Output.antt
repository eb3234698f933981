-- ===== src/Client/Output.antt =====
-- `render` and `renderViews`: what the client prints for an answer of the daemon. With `--json` it
-- is the text that package json makes of the answer.
use request_blocker.Shared.{
  Bool, ◌&&◌, Option, none, some, List, [], ◌∷◌, ◌++◌, length, nat_eq, list_eq, ◌==◌, if◌then◌else◌,
}
use request_blocker.Text.{Text, codes, itoa}
use request_blocker.Proto.{ScopeView, StatusInfo, action_show, action_status}

-- A response as the client decodes it.
pub record Answer : Type 0 where
  pub is_ok : Bool
  pub error : Text
  pub message : Text
  pub views : List ScopeView
  pub status : Option StatusInfo

abbrev pub newline : Text
newline = codes "\n"

abbrev pub header : ScopeView → Text
header v = if v.read_only then v.scope ++ codes " [read-only]" else v.scope

abbrev pub domain_prefix : Text
domain_prefix = codes "  domain  "

abbrev pub ip_prefix : Text
ip_prefix = codes "  ip      "

unfoldable pub render_items : Text → List Text → Text
render_items prefix [] = []
render_items prefix (x ∷ xs) = prefix ++ (x ++ (newline ++ render_items prefix xs))

unfoldable pub render_view : ScopeView → Text
unfolding render_items
render_view v =
    codes "== "
    ++ (header v
        ++ (codes " ==\n"
            ++ ((if length v.domains == 0 && length v.ips == 0 then codes "  (empty)\n" else [])
                ++ (render_items domain_prefix v.domains
                    ++ (render_items ip_prefix v.ips ++ newline)))))

unfoldable pub render_each : List ScopeView → Text
unfolding render_view
render_each [] = []
render_each (v ∷ vs) = render_view v ++ render_each vs

unfoldable pub render_views : List ScopeView → Text
unfolding render_each
render_views views =
    if length views == 0 then codes "no blocklists configured\n" else render_each views

abbrev pub render_status : Option StatusInfo → Text
render_status none = []
render_status (some info) =
    codes "daemon OK\n  backend:          "
    ++ (info.backend ++ (codes "\n  protocol version: " ++ (itoa info.protocol_version ++ newline)))

-- `encode` is the indented JSON of an answer, with its newline.
unfoldable pub render : (Answer → Text) → Text → Bool → Answer → Text
unfolding render_views
render encode action json_out resp =
    if json_out
    then encode resp
    else if action == action_status
    then render_status resp.status
    else if action == action_show
    then render_views resp.views
    else resp.message ++ newline
