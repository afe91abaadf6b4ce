-- ===== src/CommandLine/Parse/Configured.antt =====
-- src/dpmaster.c: ParseCommandLine keeps the settings in their ranges.
use dpmaster_x.Prelude.{
  ℕ, zero, suc, Option, inl, inr, not, ◌||◌, List, [], ◌∷◌, arith, length, take, ltb, leb,
  if◌then◌else◌, Bool-cases, Option-cases, OnSome, OnSome-at,
}
use dpmaster_x.Text.{Text}
use dpmaster_x.Games.{declare_policy}
use dpmaster_x.Properties.Update.{update_properties}
use dpmaster_x.CommandLine.Parse.Consumed.{
  parse_from-ok, parse_from-stop, parse_from-undefined, is_ok→ok,
}
use dpmaster_x.CommandLine.Options.{choice_of, Choice}
use dpmaster_x.CommandLine.{Program, Memory, cmdline_option, sys_cmdline_option}
use dpmaster_x.CommandLine.Options.Choice.{game_properties, game_policy}
use dpmaster_x.CommandLine.Settings.{
  IsConfigured, Configures, cmdline_option-Configures, sys_cmdline_option-Configures,
}
use dpmaster_x.CommandLine.Parse.{
  Parsed, Found, find_option, count_params, run_copied, copied_choice, run_option, parse_argument,
  parse_from, is_ok, parse_command_line, Outcome,
}

module _ {contents : Option Text} where
  copied_choice-Configures :
      (p : Program) (m : Memory) (first_param : Text) (choice : Choice)
      → IsConfigured contents p
      → Configures contents (copied_choice p m first_param choice)
  unfolding copied_choice
  copied_choice-Configures p m first_param game_properties c =
      elim (Option-cases (update_properties p.registry first_param [])) [
        | inl e ↦ rw (e, copied_choice) tt
        | inr ((registry, status), e) ↦ elim (Bool-cases (is_ok status)) [
          | inl k ↦ elim (Option-cases (m.stray_properties p.registry first_param)) [
            | inl crash ↦ rw (e, k, crash, copied_choice) tt
            | inr (r, loaded) ↦ rw (e, k, loaded, copied_choice) (ground arith)
          ]
          | inr k ↦ rw (e, k, copied_choice) (ground arith)
        ]
      ]
  copied_choice-Configures p m first_param game_policy c =
      elim (Bool-cases (is_ok (declare_policy m.names p.policy first_param []).1)) [
        | inl k ↦ elim (Option-cases (m.stray_policy p.policy first_param)) [
          | inl crash ↦ rw (k, crash, copied_choice) tt
          | inr (q, loaded) ↦ rw (k, loaded, copied_choice) (ground arith)
        ]
        | inr k ↦ rw (k, copied_choice) (ground arith)
      ]
  copied_choice-Configures p m first_param _ c = tt

  run_copied-Configures :
      (p : Program) (m : Memory) (f : Found) (first_param : Text)
      → IsConfigured contents p
      → Configures contents (run_copied p m f first_param)
  unfolding run_copied
  run_copied-Configures p m f first_param c = elim (Bool-cases (f.sys_option || not m.params)) [
    | inl e ↦ rw (e, run_copied) tt
    | inr e ↦ elim (Option-cases (choice_of f.opt.long_name)) [
      | inl n ↦ rw (e, n, run_copied) tt
      | inr (choice, n) ↦ rw (e, n, run_copied) (copied_choice-Configures p m first_param choice c)
    ]
  ]

  run_option-Configures :
      (p : Program) (m : Memory) (f : Found) (nb_params : ℕ) (args : List Text)
      → IsConfigured contents p
      → Configures contents (run_option p m f nb_params args)
  unfolding run_option
  run_option-Configures p m f nb_params args c = elim (Option-cases f.first_param) [
    | inl e ↦ rw (e, run_option) (called (take nb_params args))
    | inr (first_param, e) ↦ elim (Bool-cases (ltb 1 nb_params)) [
      | inl many ↦ rw (e, many, run_option) (run_copied-Configures p m f first_param c)
      | inr one ↦ rw (e, one, run_option) (called (first_param ∷ []))
    ]
  ]
    where
      called :
          (params : List Text)
          → Configures contents (
              if f.sys_option
              then sys_cmdline_option p f.opt params
              else cmdline_option p m f.opt params)
      called params = elim (Bool-cases f.sys_option) [
        | inl sys ↦ rw (sys) (sys_cmdline_option-Configures p f.opt params c)
        | inr cross ↦ rw (cross) (cmdline_option-Configures p m f.opt params c)
      ]

  parse_argument-IsConfigured :
      (p : Program) (m : Memory) (crt_arg : Text) (args : List Text)
      → IsConfigured contents p
      → OnSome (λ (r : Parsed). IsConfigured contents r.program) (parse_argument p m crt_arg args)
  unfolding parse_argument
  parse_argument-IsConfigured p m crt_arg args c = elim (Option-cases (find_option crt_arg)) [
    | inl e ↦ rw (e, parse_argument) c
    | inr (f, e) ↦ elim (Option-cases (count_params f args)) [
      | inl n ↦ rw (e, n, parse_argument) c
      | inr (count, n) ↦ elim (Bool-cases (leb count.nb_params f.opt.max_params)) [
        | inr many ↦ rw (e, n, many, parse_argument) c
        | inl fits ↦ elim (Option-cases (run_option p m f count.nb_params args)) [
          | inl u ↦ rw (e, n, fits, u, parse_argument) tt
          | inr (r, u) ↦
              rw (e, n, fits, u, parse_argument)
                (OnSome-at (λ q. IsConfigured contents q.0)
                  (run_option-Configures p m f count.nb_params args c) u)
        ]
      ]
    ]
  ]

  parse_from-IsConfigured :
      (rounds : ℕ) (p : Program) (m : Memory) (args : List Text)
      → IsConfigured contents p
      → OnSome (λ (r : Parsed). IsConfigured contents r.program) (parse_from rounds p m args)
  parse_from-IsConfigured zero p m [] c = unfold parse_from in c
  parse_from-IsConfigured (suc rounds) p m [] c = unfold parse_from in c
  parse_from-IsConfigured zero p m (crt_arg ∷ args) c = unfold parse_from in c
  parse_from-IsConfigured (suc rounds) p m (crt_arg ∷ args) c =
      elim (Option-cases (parse_argument p m crt_arg args)) [
        | inl e ↦ rw (parse_from-undefined rounds p m crt_arg args e) tt
        | inr (r, e) ↦
            let c' =
              OnSome-at (λ (r : Parsed). IsConfigured contents r.program)
                (parse_argument-IsConfigured p m crt_arg args c) e in
            elim (Bool-cases (is_ok r.status)) [
              | inr k ↦ rw (parse_from-stop rounds p m crt_arg args r e k) c'
              | inl k ↦
                  rw (parse_from-ok rounds p m crt_arg args r e (is_ok→ok r.status k))
                    (parse_from-IsConfigured rounds r.program m r.args c')
            ]
      ]

  -- ParseCommandLine keeps the settings in their ranges, whatever the arguments, and also if it
  -- fails: hash sizes of at most 16 bits, at least one server and one client and fewer than 2^32
  -- of either, a limit for each address below 2^32, a decay time of at least 1, a throttle limit
  -- below 2^31 that is not 0 or 1, a port from 1 to 65535, a message level of at most 4, at most
  -- 8 listening addresses, a path of the log file of 1 to 4095 bytes, and a server list that is
  -- still unused; it does not change the contents of the state file.
  pub parse_command_line-IsConfigured :
      (p : Program) (m : Memory) (args : List Text)
      → IsConfigured contents p
      → OnSome (λ (r : Outcome). IsConfigured contents r.program) (parse_command_line p m args)
  unfolding parse_command_line
  parse_command_line-IsConfigured p m args c =
      elim (Option-cases (parse_from (length args) p m args)) [
        | inl e ↦ rw (e, parse_command_line) tt
        | inr (r, e) ↦
            let c' =
              OnSome-at (λ (r : Parsed). IsConfigured contents r.program)
                (parse_from-IsConfigured (length args) p m args c) e in
            elim (Bool-cases (is_ok r.status)) [
              | inl k ↦ rw (e, k, parse_command_line) c'
              | inr k ↦ rw (e, k, parse_command_line) (ground (arith, c'))
            ]
      ]
