-- ===== src/Client/Tests.antt =====
-- Runs of the client.
use request_blocker.Shared.{
  ℕ, ◌≡◌, refl, true, false, All, arith, list_eq, nat_eq, ◌++◌, List, [], ◌∷◌, ok, list_beq,
  contains,
}
use request_blocker.Text.{
  Text, codes, index, last_index, count, has_prefix, has_suffix, take, drop, trim_space,
  trim_suffix, split, join, itoa,
}
use request_blocker.Proto.{ScopeView, Request, action_add}
use request_blocker.Validate.Address.{parse_ip, to4, v4_string, normalize_ip}
use request_blocker.Validate.Domain.{validate_domain, validate_label}
use request_blocker.Validate.Normalize.{normalize_domain}
use request_blocker.Client.Arguments.{
  Options, IsValid, options, exits, failed, value_missing, several_actions, parse_args,
  parse_args-IsValid, start,
}
use request_blocker.Client.Output.{domain_prefix, render_views}
use request_blocker.Client.Printed.{IsPlain}
use request_blocker.Client.Lines.{any_lists, render_views-lists}
use request_blocker.Client.Requests.{build_request, request}
use request_blocker.Client.Accepted.{IsAccepted, build_request-IsAccepted}

abbrev args : List Text
args = codes "--add" ∷ codes "--name=A.com" ∷ codes "--ip" ∷ codes " 10.0.0.5," ∷ []

abbrev chosen : Options
chosen = record start { add = true; name = codes "A.com"; ip = codes " 10.0.0.5," }

abbrev same_case : ℕ → ℕ
same_case c = c

parsed : parse_args args ≡ options chosen
unfolding parse_args list_beq has_prefix index take drop
parsed = refl

parse_args_test :
    (parse_args (codes "--add" ∷ codes "--show" ∷ []) ≡ exits (failed several_actions))
    × (parse_args (codes "--add" ∷ codes "--name" ∷ [])
        ≡ exits (failed (value_missing (codes "--name"))))
unfolding parse_args list_beq has_prefix index take drop
parse_args_test = (refl, refl)

abbrev add_both : Request
add_both = request action_add [] (codes "a.com" ∷ []) (codes "10.0.0.5" ∷ [])

built : build_request same_case chosen ≡ ok add_both
unfolding build_request list_beq parse_ip trim_space join normalize_ip v4_string itoa to4
    normalize_domain contains index last_index count take drop trim_suffix validate_domain
    validate_label split has_prefix has_suffix
built = refl

parse_args-IsValid_example : IsValid chosen
parse_args-IsValid_example = parse_args-IsValid args chosen parsed

build_request-IsAccepted_example : IsAccepted same_case add_both
build_request-IsAccepted_example =
    build_request-IsAccepted same_case args chosen add_both parsed built

-- What root sees of a global list and an empty one.
abbrev views : List ScopeView
views =
    record {
      scope = codes "global";
      read_only = false;
      domains = codes "ads.net" ∷ [];
      ips = codes "10.0.0.5" ∷ [];
    }
    ∷ record { scope = codes "user:1000"; read_only = true; domains = []; ips = [] }
    ∷ []

render_views_test :
    render_views views
    ≡ codes
        "== global ==\n  domain  ads.net\n  ip      10.0.0.5\n\n== user:1000 [read-only] ==\n  (empty)\n\n"
unfolding render_views
render_views_test = refl

views-IsPlain : All IsPlain views
views-IsPlain = (
  record { scope = ground arith; domains = ground arith; ips = ground arith },
  (record { scope = ground arith; domains = tt; ips = tt }, tt),
)

render_views-lists_example :
    contains (split (render_views views) 0x0a) (domain_prefix ++ codes "ads.net")
    ≡ any_lists views (codes "ads.net")
render_views-lists_example = render_views-lists views (codes "ads.net") views-IsPlain
