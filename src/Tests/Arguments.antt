-- ===== src/Tests/Arguments.antt =====
-- The theorems on the command line at concrete arguments, and runs of it.
use dpmaster_x.Prelude.{
  ℕ, ◌≡◌, refl, true, false, Option, none, some, List, [], ◌∷◌, arith, inl, inr, OnSome, ◌>>=◌, leb,
  ◌+◌,
}
use dpmaster_x.Text.{Text, codes, strcmp, strtol, after_char, before_char}
use dpmaster_x.Games.{declare_policy, policy_of, declare_games, find, search_from}
use dpmaster_x.Games.CmdlineStatus.{ok}
use dpmaster_x.Properties.{empty}
use dpmaster_x.CommandLine.Options.{CmdlineOption}
use dpmaster_x.CommandLine.{Program, Memory, cmdline_option}
use dpmaster_x.Servers.Config.{set_max_nb_servers}
use dpmaster_x.CommandLine.Settings.{IsConfigured}
use dpmaster_x.CommandLine.Parse.{parse_from, parse_command_line, Parsed, Outcome}
use dpmaster_x.CommandLine.Parse.Consumed.{parse_from-ends}
use dpmaster_x.CommandLine.Parse.Configured.{parse_command_line-IsConfigured}
use dpmaster_x.CommandLine.Parse.Rendered.{Command, arguments, long_argument}
use dpmaster_x.CommandLine.Parse.Commands.{
  run_commands, outcome_of, finished, parse_command_line-commands,
}
use dpmaster_x.CommandLine.Parse.Attached.{attached_argument, parse_command_line-attached}
use dpmaster_x.Messages.Master.{Master}
use dpmaster_x.Servers.State.Safe.{IsReady}
use dpmaster_x.Startup.{System, initial_program, start}
use dpmaster_x.Startup.Ready.{start-IsReady, initial_program-IsConfigured}
use dpmaster_x.Tests.StateFile.{one_address}

abbrev program : Program
program = initial_program (empty 10) none

abbrev memory : Memory
memory = record {
  names = 10;
  path = true;
  params = true;
  stray_policy = λ p t. none;
  stray_properties = λ r t. none;
}

abbrev port_option : CmdlineOption
port_option = record { long_name = codes "port"; short_name = b'p'; min_params = 1; max_params = 1 }

abbrev flood_option : CmdlineOption
flood_option = record {
  long_name = codes "flood-protection";
  short_name = b'f';
  min_params = 0;
  max_params = 0;
}

abbrev args : List Text
args = codes "-p" ∷ codes "27960" ∷ codes "-v" ∷ []

parsed_port : Option ℕ
parsed_port = parse_command_line program memory args >>= λ o. some o.program.master_port

parsed_port_lem : parsed_port ≡ some 27960
unfolding parsed_port parse_command_line cmdline_option strcmp strtol
parsed_port_lem = refl

-- The first game of a policy may look like an option.
dashed_game : Option (List Text)
dashed_game =
    parse_command_line program memory
      (codes "--game-policy" ∷ codes "accept" ∷ codes "-v" ∷ codes "-n" ∷ codes "200" ∷ [])
    >>= λ o. some o.program.policy.game_names

dashed_game_lem : dashed_game ≡ some (codes "-v" ∷ [])
unfolding dashed_game parse_command_line after_char strcmp cmdline_option declare_policy policy_of
    declare_games find search_from strtol set_max_nb_servers
dashed_game_lem = refl

-- A port number is cut to 16 bits.
large_port : Option ℕ
large_port = parse_command_line program memory (codes "--port=65616" ∷ []) >>= λ o.
    some o.program.master_port

large_port_lem : large_port ≡ some 80
unfolding large_port parse_command_line after_char before_char strcmp cmdline_option strtol
large_port_lem = refl

many_params : Option (Option Text)
many_params = parse_command_line program memory (codes "-fx" ∷ []) >>= λ o. some o.message

many_params_lem :
    many_params
    ≡ some (some (codes "the option \"--flood-protection\" doesn't take so many parameters"))
unfolding many_params parse_command_line
many_params_lem = refl

parse_from-ends_example :
    ((more : ℕ) → parse_from (more + 3) program memory args ≡ parse_from 3 program memory args)
    × ((r : Parsed) → parse_from 3 program memory args ≡ some r → r.status ≡ ok → r.args ≡ [])
parse_from-ends_example = parse_from-ends program memory args

parse_command_line-IsConfigured_example :
    OnSome (λ (r : Outcome). IsConfigured none r.program) (parse_command_line program memory args)
parse_command_line-IsConfigured_example =
    parse_command_line-IsConfigured program memory args
      (initial_program-IsConfigured (empty 10) none)

abbrev commands : List Command
commands =
    record { sys_option = false; opt = port_option; params = codes "27960" ∷ [] }
    ∷ record { sys_option = false; opt = flood_option; params = [] }
    ∷ []

parse_command_line-commands_example :
    outcome_of (parse_command_line program memory (arguments commands))
    ≡ (run_commands program memory commands >>= λ r. some (finished r))
parse_command_line-commands_example = parse_command_line-commands program memory commands (
  record {
    listed = inr (
        inr (
          inr (
            inr (
              inr (
                inr (
                  inr (
                    inr
                      (inr (inr (inr (inr (inr (inr (inr (inr (inr (inr (inl refl))))))))))))))))));
    enough = omega arith;
    few = omega arith;
    params = tt;
  },
  (
    record { listed = inr (inr (inl refl)); enough = omega arith; few = omega arith; params = tt },
    tt,
  ),
)

parse_command_line-attached_example :
    outcome_of (parse_command_line program memory (attached_argument port_option (codes "80") ∷ []))
    ≡ outcome_of (parse_command_line program memory (long_argument port_option ∷ codes "80" ∷ []))
parse_command_line-attached_example =
    parse_command_line-attached program memory false port_option (codes "80") []
      (inr (
        inr (
          inr (
            inr (
              inr (
                inr (
                  inr (
                    inr
                      (inr (inr (inr (inr (inr (inr (inr (inr (inr (inr (inl refl)))))))))))))))))))
      (refl, refl)

-- A system that grants arrays of up to 10000 records.
abbrev system : System
system = record {
  log = true;
  addresses = true;
  security = true;
  sockets = true;
  server_array = λ n. leb n 10000;
  server_table = true;
  state_file = true;
  client_array = λ n. leb n 10000;
  client_table = true;
}

start-IsReady_example :
    OnSome
      (λ (q : Master). IsReady 300 q.servers)
      (start one_address (λ name. none) system memory 300 program args)
start-IsReady_example =
    start-IsReady one_address (λ name. none) system memory 300 (empty 10) none args
      (λ n h. ground arith) tt
