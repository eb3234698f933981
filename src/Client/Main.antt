-- ===== src/Client/Main.antt =====
-- `main` and `send`. What the socket does is a parameter.
use request_blocker.Shared.{
  ℕ, Bool, not, Option, none, some, List, [], ◌++◌, Result, ok, err, if◌then◌else◌,
}
use request_blocker.Text.{Text, codes, itoa}
use request_blocker.Proto.{version, Request}
use request_blocker.Client.Arguments.{
  Options, ArgsError, failed, print_version, print_usage, options, exits, Parsed, parse_args,
}
use request_blocker.Client.Requests.{RequestError, build_request}
use request_blocker.Client.Output.{Answer, render}

pub data SendError : Type 0 where
  unreachable not_sent no_response : SendError

-- Whether the daemon can be dialled, whether it takes a request, and its answer to one if that
-- can be decoded.
pub record Socket : Type 0 where
  pub dialled : Bool
  pub written : Bool
  pub answer : Request → Option Answer

unfoldable pub send : Socket → Request → Result SendError Answer
send socket req =
    if not socket.dialled
    then err unreachable
    else if not socket.written
    then err not_sent
    else elim (socket.answer req) [ none ↦ err no_response | some resp ↦ ok resp ]

-- What goes to standard error, behind `error:`.
pub data Problem : Type 0 where
  bad_arguments : ArgsError → Problem
  bad_request : RequestError → Problem
  not_answered : SendError → Problem
  refused : Text → Problem

-- The end of the process: its exit status, standard output, and the error if there is one.
pub record Ending : Type 0 where
  pub status : ℕ
  pub out : Text
  pub problem : Option Problem

abbrev pub fails : ℕ → Problem → Ending
fails status problem = record { status = status; out = []; problem = some problem }

abbrev pub prints : Text → Ending
prints out = record { status = 0; out = out; problem = none }

abbrev pub client_version : Text
client_version = codes "0.2.0"

abbrev pub usage : Text
usage =
    codes
      "webblock - block websites and IPs on Linux\n\nUsage:\n  webblock --add    [--name <d1>,<d2>] [--ip <ip1>,<ip2>] [--user <name|uid>]\n  webblock --remove [--name <d1>,<d2>] [--ip <ip1>,<ip2>] [--user <name|uid>]\n  webblock --show   [--json]\n  webblock --status [--json]\n  webblock --version\n\nScope:\n  Run as root to manage the global blocklist (applies to all users), or pass\n  --user to target a specific user's list. Run as a normal user to manage only\n  your own blocklist.\n\nExamples:\n  webblock --add --name example.com,ads.example.net\n  webblock --add --ip 93.184.216.34\n  webblock --add --name tracker.com --ip 10.0.0.5\n  webblock --remove --name example.com\n  webblock --show\n  webblock --show --json\n"

module _ (lower : ℕ → ℕ) (encode : Answer → Text) (socket : Text → Socket) where
  abbrev pub answered : Options → Request → Result SendError Answer → Ending
  answered o req (err x) = fails 1 (not_answered x)
  answered o req (ok resp) =
      if resp.is_ok
      then prints (render encode req.action o.json_out resp)
      else fails 1 (refused resp.error)

  abbrev pub requested : Options → Result RequestError Request → Ending
  requested o (err x) = fails 2 (bad_request x)
  requested o (ok req) = answered o req (send (socket o.socket) req)

  abbrev pub parsed : Parsed → Ending
  parsed (options o) = requested o (build_request lower o)
  parsed (exits (failed x)) = fails 2 (bad_arguments x)
  parsed (exits print_version) = prints (
      codes "webblock "
      ++ (client_version ++ (codes " (protocol " ++ (itoa version ++ codes ")\n"))))
  parsed (exits print_usage) = prints usage

  unfoldable pub main : List Text → Ending
  main args = parsed (parse_args args)
