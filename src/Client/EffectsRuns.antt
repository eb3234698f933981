-- ===== src/Client/EffectsRuns.antt =====
-- A run from a command line to the store.
use request_blocker.Shared.{
  ◌≡◌, refl, true, arith, some, List, [], ◌∷◌, list_eq, list_beq, nat_eq, contains, ok, lookup,
  insert, delete, sort,
}
use request_blocker.Text.{
  Text, codes, pos, int_eq, int_le, int_beq, has_suffix, has_prefix, trim_suffix, trim_space, atoi,
  itoa, join, text_le, index, last_index, take, drop, split,
}
use request_blocker.Store.Scope.{user_scope, label}
use request_blocker.Store.BlockList.{sorted_unique, add_unique, add_domains, add_ips}
use request_blocker.Store.Disk.{load, list_user_uids, mutate, save}
use request_blocker.Store.Disk.Users.{stored}
use request_blocker.Backend.State
use request_blocker.Proto.{Request, is_root}
use request_blocker.Validate.Address.{parse_ip, to4, v4_string, normalize_ip}
use request_blocker.Validate.Domain.{validate_domain, validate_label}
use request_blocker.Validate.Normalize.{normalize_domain}
use request_blocker.Daemon.Authz.{resolve_scope}
use request_blocker.Daemon.Engine.{add_entries}
use request_blocker.Daemon.Handlers.{dispatch}
use request_blocker.Daemon.Tests.Fixtures.{recorder, engine, ambient, alice}
use request_blocker.Client.Arguments.{Options, options, parse_args, start}
use request_blocker.Client.Requests.{build_request, keep_filled, split_list, request}
use request_blocker.Daemon.Handlers.{ResponseError}
use request_blocker.Client.Output.{Answer}
use request_blocker.Client.Main.{Socket, main, send}
use request_blocker.Client.Ends.{answer_of, main-stored}

abbrev opts : Options
opts = record start { add = true; name = codes "ads.net, B.org" }

abbrev args : List Text
args = codes "--add" ∷ codes "--name=ads.net, B.org" ∷ []

abbrev sent_request : Request
sent_request = request (codes "add") [] (codes "ads.net" ∷ codes "b.org" ∷ []) []

parses : parse_args args ≡ options opts
unfolding parse_args list_beq has_prefix index take drop
parses = refl

builds : build_request ambient.lower opts ≡ ok sent_request
unfolding build_request trim_space split validate_domain normalize_domain trim_suffix contains index
    last_index parse_ip validate_label
builds = refl

own : resolve_scope ambient.db opts.user alice ≡ ok (user_scope (pos 1000))
unfolding resolve_scope is_root list_beq
own = refl

answers : (dispatch recorder 10 ambient alice sent_request engine).1.is_ok ≡ true
unfolding dispatch resolve_scope is_root load lookup list_beq list_user_uids sort has_suffix atoi
    trim_suffix trim_space itoa insert contains State.is_empty parse_ip to4 int_beq int_le v4_string
    join mutate save delete sorted_unique add_ips add_domains add_unique text_le normalize_ip label
    add_entries validate_domain normalize_domain index last_index split validate_label
answers = refl

typed : contains (split_list opts.name) (codes "B.org") ≡ true
unfolding contains split_list keep_filled split trim_space list_beq
typed = refl

abbrev pub words : ResponseError → Text
words x = codes "error"

abbrev pub encode : Answer → Text
encode r = codes "{}"

-- A socket behind which the daemon answers.
abbrev pub daemon : Text → Socket
daemon path = record {
  dialled = true;
  written = true;
  answer = λ req. some (answer_of words (dispatch recorder 10 ambient alice req engine).1);
}

ends : (main ambient.lower encode daemon args).status ≡ 0
unfolding main send
ends = rw parses (rw builds (rw answers refl))

main-stored_example :
    (req : Request) × (build_request ambient.lower opts ≡ ok req)
    × (contains
          (stored
            (user_scope (pos 1000))
            (dispatch recorder 10 ambient alice req engine).0.disk).domains
          (normalize_domain ambient.lower (codes "B.org"))
        ≡ true)
main-stored_example =
    main-stored recorder 10 ambient words encode daemon true args opts alice engine
      (user_scope (pos 1000)) (codes "B.org") parses refl (λ req. refl) own (omega arith) ends typed
