-- ===== src/CommandLine/Parse/Attached.antt =====
-- src/dpmaster.c: parameters attached to their option, as in "--port=27950".
use dpmaster_x.Prelude.{
  ℕ, suc, ◌+◌, ◌≡◌, refl, sym, ◌∙◌, ap, inl, inr, Bool, true, false, Option, none, some, List, [],
  ◌∷◌, ◌++◌, arith, length, leb, Bool-cases, ◌>>=◌,
}
use dpmaster_x.Text.{Text, strcmp, after_char, before_char}
use dpmaster_x.Games.CmdlineStatus.{ok, too_much_opt_params}
use dpmaster_x.CommandLine.Options.{CmdlineOption, cmdline_options, sys_cmdline_options}
use dpmaster_x.CommandLine.{Program, Memory, Result}
use dpmaster_x.CommandLine.Parse.{
  Parsed, Found, find_option, count_params, gather, run_option, parse_argument, parse_from,
  parse_command_line, after_option,
}
use dpmaster_x.CommandLine.Parse.Consumed.{parse_from-more}
use dpmaster_x.CommandLine.Parse.Rendered.{
  Among, table, long_argument, call, find_option-long, found_long,
}
use dpmaster_x.CommandLine.Parse.Commands.{
  result_of, outcome_of, parse_command_line-result, finished,
}

abbrev pub found_attached : Bool → CmdlineOption → Text → Found
found_attached sys_option opt value = record {
  opt = opt;
  sys_option = sys_option;
  first_param = some value;
}

abbrev pub attached_argument : CmdlineOption → Text → Text
attached_argument opt value = b'-' ∷ b'-' ∷ (opt.long_name ++ b'=' ∷ value)

AllAttached : Bool → Text → List CmdlineOption → Type 0
AllAttached sys_option value [] = Unit
AllAttached sys_option value (opt ∷ opts) =
    (find_option (attached_argument opt value) ≡ some (found_attached sys_option opt value))
    × AllAttached sys_option value opts

Among-attached :
    (sys_option : Bool) (value : Text) (opt : CmdlineOption) (opts : List CmdlineOption)
    → AllAttached sys_option value opts
    → Among opt opts
    → find_option (attached_argument opt value) ≡ some (found_attached sys_option opt value)
unfolding AllAttached
Among-attached sys_option value opt [] a h = absurd h
Among-attached sys_option value opt (x ∷ xs) a (inl e) = rw (e) a.0
Among-attached sys_option value opt (x ∷ xs) a (inr h) =
    Among-attached sys_option value opt xs a.1 h

-- Every option is found in front of the '='.
pub find_option-attached :
    (sys_option : Bool) (opt : CmdlineOption) (value : Text)
    → Among opt (table sys_option)
    → find_option (attached_argument opt value) ≡ some (found_attached sys_option opt value)
unfolding AllAttached find_option strcmp after_char before_char
find_option-attached true opt value h =
    Among-attached true value opt sys_cmdline_options (assumption refl) h
find_option-attached false opt value h =
    Among-attached false value opt cmdline_options (assumption refl) h

-- The arguments that an error leaves do not matter for the program and the status.
abbrev go_on : ℕ → Memory → Option Parsed → Option Parsed
go_on rounds m none = none
go_on rounds m (some r) = elim r.status [
  | ok ↦ parse_from rounds r.program m r.args
  | refused ↦ some r
]

parse_from-go_on :
    (rounds : ℕ) (p : Program) (m : Memory) (crt_arg : Text) (args : List Text) (r : Option Parsed)
    → parse_argument p m crt_arg args ≡ r
    → parse_from (suc rounds) p m (crt_arg ∷ args) ≡ go_on rounds m r
unfolding parse_from
parse_from-go_on rounds p m crt_arg args none e = rw (e, parse_from) refl
parse_from-go_on rounds p m crt_arg args (some r) e = rw (e, parse_from) refl

go_on-after_option :
    (rounds : ℕ) (m : Memory) (opt : CmdlineOption) (rest all all' : List Text) (r : Result)
    → result_of (go_on rounds m (after_option opt rest all r))
      ≡ result_of (go_on rounds m (after_option opt rest all' r))
go_on-after_option rounds m opt rest all all' none = refl
go_on-after_option rounds m opt rest all all' (some (p, ok)) = refl
go_on-after_option rounds m opt rest all all' (some (p, _)) = refl

-- An option that has exactly one parameter.
abbrev pub TakesOne : CmdlineOption → Type 0
TakesOne opt = (opt.min_params ≡ 1) × (opt.max_params ≡ 1)

count_params-attached :
    (sys_option : Bool) (opt : CmdlineOption) (value : Text) (args : List Text)
    → opt.min_params ≡ 1
    → count_params (found_attached sys_option opt value) args
      ≡ some (record { nb_params = 1 + gather args; separate = gather args })
unfolding count_params
count_params-attached sys_option opt value args h = rw (h, count_params) (ground arith)

count_params-separate :
    (sys_option : Bool) (opt : CmdlineOption) (value : Text) (args : List Text)
    → opt.min_params ≡ 1
    → count_params (found_long sys_option opt) (value ∷ args)
      ≡ some (record { nb_params = 1 + gather args; separate = 1 + gather args })
unfolding count_params
count_params-separate sys_option opt value args h = rw (h, count_params) (ground arith)

module _ (rounds : ℕ) (p : Program) (m : Memory) (sys_option : Bool) (opt : CmdlineOption)
    (value : Text) (args : List Text) (listed : Among opt (table sys_option))
    (one : TakesOne opt) where
  called : Result
  called = call p m (record { sys_option = sys_option; opt = opt; params = value ∷ [] })

  too_many : List Text → Parsed
  too_many all = record {
    program = p;
    status = too_much_opt_params;
    cmdline_opt = some opt;
    args = all;
  }

  attached-one :
      gather args ≡ 0
      → parse_argument p m (attached_argument opt value) args
        ≡ after_option opt args (attached_argument opt value ∷ args) called
  unfolding parse_argument run_option called
  attached-one none_left =
      rw
        (
          find_option-attached sys_option opt value listed,
          count_params-attached sys_option opt value args one.0,
          none_left,
          one.1,
          parse_argument,
        )
        refl

  separate-one :
      gather args ≡ 0
      → parse_argument p m (long_argument opt) (value ∷ args)
        ≡ after_option opt args (long_argument opt ∷ (value ∷ args)) called
  unfolding parse_argument run_option called
  separate-one none_left =
      rw
        (
          find_option-long sys_option opt listed,
          count_params-separate sys_option opt value args one.0,
          none_left,
          one.1,
          parse_argument,
        )
        refl

  attached-many :
      leb (1 + gather args) 1 ≡ false
      → parse_argument p m (attached_argument opt value) args
        ≡ some (too_many (attached_argument opt value ∷ args))
  unfolding parse_argument too_many
  attached-many more =
      rw
        (
          find_option-attached sys_option opt value listed,
          count_params-attached sys_option opt value args one.0,
          one.1,
          more,
          parse_argument,
        )
        refl

  separate-many :
      leb (1 + gather args) 1 ≡ false
      → parse_argument p m (long_argument opt) (value ∷ args)
        ≡ some (too_many (long_argument opt ∷ (value ∷ args)))
  unfolding parse_argument too_many
  separate-many more =
      rw
        (
          find_option-long sys_option opt listed,
          count_params-separate sys_option opt value args one.0,
          one.1,
          more,
          parse_argument,
        )
        refl

  parse_from-attached :
      result_of (parse_from (suc rounds) p m (attached_argument opt value ∷ args))
      ≡ result_of (parse_from (suc rounds) p m (long_argument opt ∷ (value ∷ args)))
  unfolding too_many
  parse_from-attached = elim (Bool-cases (leb (1 + gather args) 1)) [
    | inl few ↦
        let none_left : gather args ≡ 0 = ground (arith, few) in
        ap result_of (
          parse_from-go_on rounds p m (attached_argument opt value) args _ (attached-one none_left))
        ∙ go_on-after_option rounds m opt args _ _ called
        ∙ sym (
            ap result_of (
              parse_from-go_on rounds p m (long_argument opt) (value ∷ args) _
                (separate-one none_left)))
    | inr more ↦
        ap result_of
          (parse_from-go_on rounds p m (attached_argument opt value) args _ (attached-many more))
        ∙ sym (
            ap result_of (
              parse_from-go_on rounds p m (long_argument opt) (value ∷ args) _
                (separate-many more)))
  ]

-- An option of the tables that takes exactly one parameter may have it attached behind a "=" or
-- as the next argument: ParseCommandLine gives the same variables and the same status, also if
-- the option comes with too many parameters.
pub parse_command_line-attached :
    (p : Program) (m : Memory) (sys_option : Bool) (opt : CmdlineOption) (value : Text)
    (args : List Text)
    → Among opt (table sys_option)
    → TakesOne opt
    → outcome_of (parse_command_line p m (attached_argument opt value ∷ args))
      ≡ outcome_of (parse_command_line p m (long_argument opt ∷ (value ∷ args)))
parse_command_line-attached p m sys_option opt value args listed one =
    let attached : List Text = attached_argument opt value ∷ args in
    let separate : List Text = long_argument opt ∷ (value ∷ args) in
    parse_command_line-result p m attached
    ∙ ap (λ (r : Result). r >>= λ q. some (finished q))
        (ap result_of (
            sym (parse_from-more 1 p m attached)
            ∙ ap (λ n. parse_from n p m attached) (omega arith))
          ∙ parse_from-attached (suc (length args)) p m sys_option opt value args listed one)
    ∙ sym (parse_command_line-result p m separate)
