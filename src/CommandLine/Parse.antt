-- ===== src/CommandLine/Parse.antt =====
-- src/dpmaster.c: ParseCommandLine. The arguments from `argv[ind]` on are a list.
pub mod Consumed
pub mod Configured
pub mod Rendered
pub mod Commands
pub mod Attached
use mathlib.Core.Option
use dpmaster_x.Prelude.{
  ℕ, zero, suc, ◌+◌, ◌-◌, Bool, true, false, not, ◌||◌, ◌&&◌, Option, none, some, List, [], ◌∷◌,
  ◌++◌, ltb, leb, ◌==◌, if◌then◌else◌, length, take, drop, is_some,
}
use dpmaster_x.Text.{Text, codes, str_eq, after_char, before_char}
use dpmaster_x.Games.{CmdlineStatus, declare_policy}
use dpmaster_x.Games.CmdlineStatus.{
  ok, show_help, show_game_properties, invalid_opt, not_enough_opt_params, too_much_opt_params,
  invalid_opt_params, not_enough_memory,
}
use dpmaster_x.Properties.Update.{update_properties}
use dpmaster_x.CommandLine.Options.{
  CmdlineOption, cmdline_options, sys_cmdline_options, choice_of, Choice, game_properties,
  game_policy,
}
use dpmaster_x.CommandLine.{Program, Memory, cmdline_option, sys_cmdline_option, Result}

-- An option that was found, in which table, and the parameter attached to it.
pub record Found : Type 0 where
  pub opt : CmdlineOption
  pub sys_option : Bool
  pub first_param : Option Text

unfoldable pub find_long : List CmdlineOption → Text → Option CmdlineOption
find_long [] option_name = none
find_long (opt ∷ opts) option_name =
    if str_eq opt.long_name option_name then some opt else find_long opts option_name

unfoldable pub find_short : List CmdlineOption → ℕ → Option CmdlineOption
find_short [] short_cmd = none
find_short (opt ∷ opts) short_cmd =
    if opt.short_name == short_cmd then some opt else find_short opts short_cmd

-- The cross-platform options first, then those of the system.
abbrev pub in_tables : (List CmdlineOption → Option CmdlineOption) → Option Text → Option Found
in_tables find first_param = elim (find cmdline_options) [
  | some opt ↦ some (record { opt = opt; sys_option = false; first_param = first_param })
  | none ↦ elim (find sys_cmdline_options) [
    | some opt ↦ some (record { opt = opt; sys_option = true; first_param = first_param })
    | none ↦ none
  ]
]

-- A long option, behind the "--"; `option_name` has 64 bytes.
unfoldable pub find_long_option : Text → Option Found
unfolding find_long
find_long_option arg = elim (after_char b'=' arg) [
  | none ↦ in_tables (λ opts. find_long opts (take 63 arg)) none
  | some value ↦
      let option_name = before_char b'=' arg in
      if length option_name == 0 || leb 64 (length option_name)
      then none
      else in_tables (λ opts. find_long opts option_name) (some value)
]

abbrev pub attached : Text → Option Text
attached [] = none
attached (c ∷ s) = some (c ∷ s)

-- The option that an argument is.
unfoldable pub find_option : Text → Option Found
unfolding find_long_option find_short
find_option (c ∷ short_cmd ∷ rest) =
    if c == b'-'
    then (if short_cmd == b'-'
        then find_long_option rest
        else in_tables (λ opts. find_short opts short_cmd) (attached rest))
    else none
find_option _ = none

-- `argument[0] != '-'`
abbrev pub is_param : Text → Bool
is_param [] = true
is_param (c ∷ s) = not (c == b'-')

-- The loop that gathers as many parameters as possible: their number.
unfoldable pub gather : List Text → ℕ
gather [] = 0
gather (arg ∷ args) = if is_param arg then suc (gather args) else 0

-- How many parameters an option gets, and how many of them are arguments of their own.
pub record Count : Type 0 where
  pub nb_params : ℕ
  pub separate : ℕ

unfoldable pub count_params : Found → List Text → Option Count
unfolding gather
count_params f args =
    let nb_attached = if is_some f.first_param then 1 else 0 in
    let needed = f.opt.min_params - nb_attached in
    if leb needed (length args)
    then (let nb_params =
          if is_some f.first_param && f.opt.min_params == 0 then 1 else f.opt.min_params in
        let more = gather (drop needed args) in
        some (record { nb_params = nb_params + more; separate = needed + more }))
    else none

abbrev pub is_ok : CmdlineStatus → Bool
is_ok ok = true
is_ok _ = false

-- Cmdline_Option with a parameter and stray ones behind it. Game_DeclarePolicy and
-- Game_UpdateProperties look at the first parameter before they load the others. What they do
-- with these depends on where the addresses lead, and is a parameter: the first game of an empty
-- list is not read, but stored with OK, and read when the next game is looked for.
unfoldable pub copied_choice : Program → Memory → Text → Choice → Result
copied_choice p m first_param game_properties = elim (update_properties p.registry first_param []) [
  | none ↦ none
  | some (registry, status) ↦
      if is_ok status
      then Option.map (λ r. (record p { registry = r.0 }, r.1))
          (m.stray_properties p.registry first_param)
      else some (record p { registry = registry }, status)
]
copied_choice p m first_param game_policy =
    let r = declare_policy m.names p.policy first_param [] in
    if is_ok r.1
    then Option.map (λ q. (record p { policy = q.0 }, q.1)) (m.stray_policy p.policy first_param)
    else some (record p { policy = r.0 }, r.1)
copied_choice p m first_param _ = none

-- The call with an attached parameter and more behind it: `memcpy` copies the bytes of the next
-- argument, and not the pointers to the arguments, into the array of the parameters, so that the
-- addresses behind the first are stray. Without memory the array has no value, and no parameter
-- can be read.
unfoldable pub run_copied : Program → Memory → Found → Text → Result
unfolding copied_choice
run_copied p m f first_param =
    if f.sys_option || not m.params then none else (elim (choice_of f.opt.long_name) [
      | none ↦ none
      | some choice ↦ copied_choice p m first_param choice
    ])

-- The call of Cmdline_Option or Sys_Cmdline_Option, and what it is called with.
unfoldable pub run_option : Program → Memory → Found → ℕ → List Text → Result
unfolding run_copied
run_option p m f nb_params args =
    let call = λ (params : List Text).
      if f.sys_option then sys_cmdline_option p f.opt params else cmdline_option p m f.opt params in
    elim f.first_param [
      | none ↦ call (take nb_params args)
      | some first_param ↦
          if ltb 1 nb_params then run_copied p m f first_param else call (first_param ∷ [])
    ]

-- What a round leaves: the variables, the status, `cmdline_opt`, and the arguments from
-- `argv[ind]` on.
pub record Parsed : Type 0 where
  pub program : Program
  pub status : CmdlineStatus
  pub cmdline_opt : Option CmdlineOption
  pub args : List Text

-- What a round makes of the result of its option: `rest` are the arguments behind its parameters.
abbrev pub after_option : CmdlineOption → List Text → List Text → Result → Option Parsed
after_option opt rest all none = none
after_option opt rest all (some (p, status)) = some (record {
  program = p;
  status = status;
  cmdline_opt = some opt;
  args = if is_ok status then rest else all;
})

-- A round of the loop, at the argument `crt_arg`.
unfoldable pub parse_argument : Program → Memory → Text → List Text → Option Parsed
unfolding find_option count_params run_option
parse_argument p m crt_arg args =
    let stop = λ (status : CmdlineStatus) (opt : Option CmdlineOption).
      let parsed : Parsed = record {
        program = p;
        status = status;
        cmdline_opt = opt;
        args = crt_arg ∷ args;
      } in
      some parsed in
    elim (find_option crt_arg) [
      | none ↦ stop invalid_opt none
      | some f ↦ elim (count_params f args) [
        | none ↦ stop not_enough_opt_params (some f.opt)
        | some count ↦
            if leb count.nb_params f.opt.max_params
            then after_option f.opt (drop count.separate args) (crt_arg ∷ args)
                (run_option p m f count.nb_params args)
            else stop too_much_opt_params (some f.opt)
      ]
    ]

-- The loop. Each round takes an argument at least, so that as many rounds as there are arguments
-- are enough.
unfoldable pub parse_from : ℕ → Program → Memory → List Text → Option Parsed
parse_from rounds p m [] = some (record { program = p; status = ok; cmdline_opt = none; args = [] })
parse_from zero p m (crt_arg ∷ args) =
    some (record { program = p; status = ok; cmdline_opt = none; args = crt_arg ∷ args })
parse_from (suc rounds) p m (crt_arg ∷ args) = elim (parse_argument p m crt_arg args) [
  | none ↦ none
  | some r ↦ elim r.status [ ok ↦ parse_from rounds r.program m r.args | refused ↦ some r ]
]

-- What is printed in front of and behind the name of the option.
abbrev pub error_parts : CmdlineStatus → Option (Text × Text)
error_parts invalid_opt = some (codes "the option \"", codes "\" is unknown")
error_parts not_enough_opt_params = some (codes "the option \"--", codes "\" needs more parameters")
error_parts too_much_opt_params =
    some (codes "the option \"--", codes "\" doesn't take so many parameters")
error_parts invalid_opt_params =
    some (codes "the parameter(s) of the option \"--", codes "\" is/are invalid")
error_parts not_enough_memory =
    some (codes "not enough memory for parsing the option \"--", codes "\"")
error_parts _ = none

-- `errormsg_arg`
abbrev pub error_arg : Option CmdlineOption → List Text → Text
error_arg (some opt) args = opt.long_name
error_arg none [] = []
error_arg none (arg ∷ args) = arg

-- The error message, if there is one.
unfoldable pub error_message : Parsed → Option Text
error_message r = elim (error_parts r.status) [
  | none ↦ none
  | some (part1, part2) ↦ some (part1 ++ (error_arg r.cmdline_opt r.args ++ part2))
]

pub record Outcome : Type 0 where
  pub program : Program
  pub status : CmdlineStatus
  pub message : Option Text

-- MSG_NORMAL
abbrev pub msg_normal : ℕ
msg_normal = 3

-- ParseCommandLine, on the arguments behind the name of the program. A failure resets the verbose
-- level.
unfoldable pub parse_command_line : Program → Memory → List Text → Option Outcome
unfolding parse_from parse_argument error_message
parse_command_line p m args = elim (parse_from (length args) p m args) [
  | none ↦ none
  | some r ↦
      if is_ok r.status
      then some (record { program = r.program; status = ok; message = none })
      else some (record {
        program = record (r.program) { max_msg_level = msg_normal };
        status = r.status;
        message = error_message r;
      })
]
