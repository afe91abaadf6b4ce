-- ===== src/CommandLine/Parse/Commands.antt =====
-- src/dpmaster.c: ParseCommandLine carries out the options in their order.
use dpmaster_x.Prelude.{
  ℕ, zero, suc, ◌≤◌, ◌≡◌, refl, sym, ◌∙◌, ap, inl, inr, Option, none, some, List, [], ◌∷◌, ◌++◌,
  arith, length, length-append, if◌then◌else◌, Bool-cases, Option-cases, ◌>>=◌,
}
use dpmaster_x.Text.{Text}
use dpmaster_x.Games.{CmdlineStatus}
use dpmaster_x.Games.CmdlineStatus.{ok}
use dpmaster_x.CommandLine.{Program, Memory, Result}
use dpmaster_x.CommandLine.Parse.{
  Parsed, Outcome, parse_argument, parse_from, parse_command_line, is_ok, after_option, msg_normal,
}
use dpmaster_x.CommandLine.Parse.Consumed.{
  parse_from-ok, parse_from-stop, parse_from-undefined, is_ok→ok,
}
use dpmaster_x.CommandLine.Parse.Rendered.{
  Command, AllCommands, arguments, call, long_argument, parse_argument-command,
}

-- The options in their order, until one fails.
pub run_commands : Program → Memory → List Command → Result
run_commands p m [] = some (p, ok)
run_commands p m (c ∷ cs) =
    call p m c >>= λ r. let rest = run_commands r.0 m cs in if is_ok r.1 then rest else some r

abbrev pub result_of : Option Parsed → Result
result_of none = none
result_of (some r) = some (r.program, r.status)

-- As many rounds as there are commands are enough.
pub parse_from-commands :
    (rounds : ℕ) (p : Program) (m : Memory) (cs : List Command)
    → AllCommands cs
    → length cs ≤ rounds
    → result_of (parse_from rounds p m (arguments cs)) ≡ run_commands p m cs
unfolding arguments run_commands
parse_from-commands zero p m [] h l = unfold parse_from in refl
parse_from-commands (suc rounds) p m [] h l = unfold parse_from in refl
parse_from-commands zero p m (c ∷ cs) h l = absurd (omega arith)
parse_from-commands (suc rounds) p m (c ∷ cs) (h, hs) l = elim (Option-cases (call p m c)) [
  | inl e ↦
      ap result_of (parse_from-undefined rounds p m crt_arg args (step none e)) ∙ sym (ran none e)
  | inr ((p', status), e) ↦ elim (Bool-cases (is_ok status)) [
    | inr k ↦
        ap result_of
          (parse_from-stop rounds p m crt_arg args (after p' status) (step (some (p', status)) e) k)
        ∙ sym (
            ran (some (p', status)) e
            ∙ ap (λ b. if b then run_commands p' m cs else some (p', status)) k)
    | inl t ↦
        ap result_of (
          parse_from-ok rounds p m crt_arg args (after p' status) (step (some (p', status)) e)
            (is_ok→ok status t)
          ∙ ap (λ b. parse_from rounds p' m (if b then arguments cs else all)) t)
        ∙ parse_from-commands rounds p' m cs hs (omega arith)
        ∙ sym (
            ran (some (p', status)) e
            ∙ ap (λ b. if b then run_commands p' m cs else some (p', status)) t)
  ]
]
  where
    crt_arg : Text
    crt_arg = long_argument c.opt

    args : List Text
    args = c.params ++ arguments cs

    all : List Text
    all = crt_arg ∷ args

    after : Program → CmdlineStatus → Parsed
    after p' status = record {
      program = p';
      status = status;
      cmdline_opt = some c.opt;
      args = if is_ok status then arguments cs else all;
    }

    step :
        (r : Result)
        → call p m c ≡ r
        → parse_argument p m crt_arg args ≡ after_option c.opt (arguments cs) all r
    step r e = parse_argument-command p m c cs h ∙ ap (after_option c.opt (arguments cs) all) e

    next : Program × CmdlineStatus → Result
    next r = if is_ok r.1 then run_commands r.0 m cs else some r

    ran : (r : Result) → call p m c ≡ r → run_commands p m (c ∷ cs) ≡ (r >>= next)
    ran r e = ap (λ r. r >>= next) e

-- A failure resets the verbose level.
abbrev pub finished : Program × CmdlineStatus → Program × CmdlineStatus
finished (p, status) =
    if is_ok status then (p, status) else (record p { max_msg_level = msg_normal }, status)

abbrev pub outcome_of : Option Outcome → Result
outcome_of none = none
outcome_of (some o) = some (o.program, o.status)

pub parse_command_line-result :
    (p : Program) (m : Memory) (args : List Text)
    → outcome_of (parse_command_line p m args)
      ≡ (result_of (parse_from (length args) p m args) >>= λ r. some (finished r))
unfolding parse_command_line
parse_command_line-result p m args = elim (Option-cases (parse_from (length args) p m args)) [
  | inl e ↦ rw (e, parse_command_line) refl
  | inr (r, e) ↦ elim (Bool-cases (is_ok r.status)) [
    | inl k ↦
        rw (e, k, parse_command_line) (ap (λ s. some (r.program, s)) (sym (is_ok→ok r.status k)))
    | inr k ↦ rw (e, k, parse_command_line) refl
  ]
]

pub parse_command_line-none :
    (p : Program) (m : Memory) (args : List Text)
    → parse_from (length args) p m args ≡ none
    → parse_command_line p m args ≡ none
unfolding parse_command_line
parse_command_line-none p m args e = rw (e, parse_command_line) refl

length-arguments : (cs : List Command) → length cs ≤ length (arguments cs)
unfolding arguments
length-arguments [] = omega arith
length-arguments (c ∷ cs) =
    omega (arith, length-append c.params (arguments cs), length-arguments cs)

-- Options of the tables, each with as many parameters as it may have, of which those that it
-- need not have do not begin with a dash, and written by their long names with the parameters
-- behind them, are carried out by ParseCommandLine in their order, with these parameters, until
-- one does not return OK; its status is the result, and the message level is reset then.
pub parse_command_line-commands :
    (p : Program) (m : Memory) (cs : List Command)
    → AllCommands cs
    → outcome_of (parse_command_line p m (arguments cs))
      ≡ (run_commands p m cs >>= λ r. some (finished r))
parse_command_line-commands p m cs h =
    parse_command_line-result p m (arguments cs)
    ∙ ap (λ (r : Result). r >>= λ q. some (finished q))
        (parse_from-commands (length (arguments cs)) p m cs h (length-arguments cs))
