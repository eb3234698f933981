-- ===== src/Client/Arguments.antt =====
-- `parseArgs`, `splitEq` and `validateActions`.
use request_blocker.Shared.{
  ℕ, ◌+◌, ◌≡◌, arith, Bool, true, false, ◌||◌, ◌&&◌, not, Option, none, some, List, [], ◌∷◌,
  list_eq, nat_eq, ◌==◌, ltb, if◌then◌else◌,
}
use request_blocker.Text.{Text, codes, index, take, drop, has_prefix}

pub record Options : Type 0 where
  pub add : Bool
  pub remove : Bool
  pub show : Bool
  pub status : Bool
  pub json_out : Bool
  pub name : Text
  pub ip : Text
  pub user : Text
  pub socket : Text

pub data ArgsError : Type 0 where
  no_action several_actions arguments_not_taken : ArgsError
  value_missing unknown_flag unknown_argument : Text → ArgsError

-- How the client may stop at its arguments: with an error, or with one of two texts and success.
pub data Exit : Type 0 where
  failed : ArgsError → Exit
  print_version print_usage : Exit

pub data Parsed : Type 0 where
  options : Options → Parsed
  exits : Exit → Parsed

abbrev pub one : Bool → ℕ
one b = if b then 1 else 0

abbrev pub actions : Options → ℕ
actions o = one o.add + one o.remove + one o.show + one o.status

abbrev pub given : Text → Bool
given t = not (t == [])

pub validate_actions : Options → Option ArgsError
validate_actions o =
    if actions o == 0
    then some no_action
    else if ltb 1 (actions o)
    then some several_actions
    else if (o.show || o.status) && (given o.name || given o.ip || given o.user)
    then some arguments_not_taken
    else none

pub split_eq : Text → Option (Text × Text)
split_eq a =
    if not (has_prefix a (codes "--"))
    then none
    else elim (index a (codes "=")) [ none ↦ none | some i ↦ some (take i a, drop (i + 1) a) ]

-- The flags that take a value, and what they set.
pub value_flag : Text → Option (Text → Options → Options)
value_flag a =
    if a == codes "--name"
    then some (λ v o. record o { name = v })
    else if a == codes "--ip"
    then some (λ v o. record o { ip = v })
    else if a == codes "--user"
    then some (λ v o. record o { user = v })
    else if a == codes "--socket"
    then some (λ v o. record o { socket = v })
    else none

-- What one argument does: it changes the options, ends the parse or takes the next argument.
pub data Effect : Type 0 where
  changes : (Options → Options) → Effect
  ends : Exit → Effect
  takes : (Text → Options → Options) → Effect

pub default_argument : Text → Effect
unfolding split_eq value_flag
default_argument a = elim (split_eq a) [
  | none ↦ ends (failed (unknown_argument a))
  | some (k, v) ↦ elim (value_flag k) [
    | some set ↦ changes (set v)
    | none ↦ ends (failed (unknown_flag k))
  ]
]

pub argument : Text → Effect
unfolding value_flag default_argument
argument a =
    if a == codes "--add"
    then changes (λ o. record o { add = true })
    else if a == codes "--remove"
    then changes (λ o. record o { remove = true })
    else if a == codes "--show"
    then changes (λ o. record o { show = true })
    else if a == codes "--status"
    then changes (λ o. record o { status = true })
    else if a == codes "--json"
    then changes (λ o. record o { json_out = true })
    else if a == codes "--version"
    then ends print_version
    else if a == codes "-h" || a == codes "--help"
    then ends print_usage
    else elim (value_flag a) [ some set ↦ takes set | none ↦ default_argument a ]

abbrev pub validated : Options → Parsed
validated o = elim (validate_actions o) [ none ↦ options o | some x ↦ exits (failed x) ]

abbrev pub start : Options
start = record {
  add = false;
  remove = false;
  show = false;
  status = false;
  json_out = false;
  name = [];
  ip = [];
  user = [];
  socket = codes "/run/webblock.sock";
}

pub parse_from : List Text → Options → Parsed
unfolding argument validate_actions
parse_from [] o = validated o
parse_from (a ∷ []) o = elim (argument a) [
  | changes f ↦ validated (f o)
  | ends p ↦ exits p
  | takes set ↦ exits (failed (value_missing a))
]
parse_from (a ∷ v ∷ args) o = elim (argument a) [
  | changes f ↦ parse_from (v ∷ args) (f o)
  | ends p ↦ exits p
  | takes set ↦ parse_from args (set v o)
]

unfoldable pub parse_args : List Text → Parsed
unfolding parse_from
parse_args args = parse_from args start

-- Exactly one action, and no other argument with one that only reads.
pub record IsValid (o : Options) : Type 0 where
  pub one_action : actions o ≡ 1
  pub plain : ((o.show || o.status) && (given o.name || given o.ip || given o.user)) ≡ false

validated-IsValid : (o o' : Options) → validated o ≡ options o' → IsValid o'
unfolding validate_actions
validated-IsValid o o' h =
    let same : o ≡ o' = ground arith in
    rw (← same) (record { one_action = ground arith; plain = ground arith })

parse_from-IsValid :
    (args : List Text) (o o' : Options) → parse_from args o ≡ options o' → IsValid o'
unfolding parse_from
parse_from-IsValid [] o o' h = validated-IsValid o o' h
parse_from-IsValid (a ∷ []) o o' h = last (argument a) h
  where
    last :
        (e : Effect)
        → elim e [
          | changes f ↦ validated (f o)
          | ends x ↦ exits x
          | takes set ↦ exits (failed (value_missing a))
        ]
          ≡ options o'
        → IsValid o'
    last (changes f) k = validated-IsValid (f o) o' k
    last (ends x) k = absurd (ground arith)
    last (takes set) k = absurd (ground arith)
parse_from-IsValid (a ∷ v ∷ args) o o' h =
    next (argument a) (λ o1 k. parse_from-IsValid (v ∷ args) o1 o' k)
      (λ o1 k. parse_from-IsValid args o1 o' k) h
  where
    next :
        (e : Effect)
        → ((o1 : Options) → parse_from (v ∷ args) o1 ≡ options o' → IsValid o')
        → ((o1 : Options) → parse_from args o1 ≡ options o' → IsValid o')
        → elim e [
          | changes f ↦ parse_from (v ∷ args) (f o)
          | ends x ↦ exits x
          | takes set ↦ parse_from args (set v o)
        ]
          ≡ options o'
        → IsValid o'
    next (changes f) flagged taken k = flagged (f o) k
    next (ends x) flagged taken k = absurd (ground arith)
    next (takes set) flagged taken k = taken (set v o) k

-- Whatever the arguments are, options that come out of them name exactly one action, and no
-- domain, address or user with an action that only reads.
pub parse_args-IsValid : (args : List Text) (o : Options) → parse_args args ≡ options o → IsValid o
unfolding parse_args
parse_args-IsValid args o h = parse_from-IsValid args start o h
