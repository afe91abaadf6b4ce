-- ===== src/Tests/Running.antt =====
-- A run of the main loop: the program is started, and gets a heartbeat.
use dpmaster_x.Prelude.{
  ap, sym, ◌∙◌, OnSome-at, ℕ, ◌≡◌, refl, true, Option, none, some, List, [], ◌∷◌, arith, leb,
}
use dpmaster_x.Text.{codes, strcmp, strtol}
use dpmaster_x.Address.{Address, ipv4}
use dpmaster_x.Properties.{empty}
use dpmaster_x.Clients
use dpmaster_x.Servers.Addrmap.{resolve_address_mappings}
use dpmaster_x.CommandLine.{cmdline_option}
use dpmaster_x.CommandLine.Parse.{parse_command_line}
use dpmaster_x.Messages.GetServers.Answers.{Returns}
use dpmaster_x.Messages.Handle.Safe.{receive-Returns}
use dpmaster_x.Servers.State.Safe.{IsReady}
use dpmaster_x.Servers.Config
use dpmaster_x.Messages.Master.{Master, Sent}
use dpmaster_x.Messages.Handle.{receive}
use dpmaster_x.Startup.{master_of, secure_init, initial_program, start}
use dpmaster_x.Startup.Ready.{IsBounded, start-IsReady}
use dpmaster_x.Startup.Run.{
  Launch, enter, Reachable, entered, received, signalled, update_log_status, IsSound,
  Reachable-IsSound,
}
use dpmaster_x.Tests.StateFile.{one_address}

abbrev launch : Launch
launch = record {
  api = one_address;
  gethostbyname = λ name. none;
  system = record {
    log = true;
    addresses = true;
    security = true;
    sockets = true;
    server_array = λ n. leb n 10000;
    server_table = true;
    state_file = true;
    client_array = λ n. leb n 10000;
    client_table = true;
  };
  memory = record {
    names = 10;
    path = true;
    params = true;
    stray_policy = λ p t. none;
    stray_properties = λ r t. none;
  };
  start_time = 300;
  registry = empty 10;
  contents = none;
  args = codes "-n" ∷ codes "3" ∷ [];
}

-- The state behind a result; a state that is not reached if there is none.
abbrev state_in : Option Master → Master
state_in none = master_of (initial_program (empty 0) none)
state_in (some m) = m

abbrev begun : Master
begun = state_in (enter launch)

enter_lem : enter launch ≡ some begun
unfolding start parse_command_line cmdline_option strcmp strtol Config.set_max_nb_servers
    resolve_address_mappings secure_init Config.init Clients.init
enter_lem = refl

bounded : IsBounded launch.system
bounded = λ n h. ground arith

begun-IsReady : IsReady 300 begun.servers
begun-IsReady =
    OnSome-at (λ (m : Master). IsReady 300 m.servers)
      (start-IsReady launch.api launch.gethostbyname launch.system launch.memory 300 launch.registry
        launch.contents launch.args bounded tt)
      enter_lem

abbrev sender : Address
sender = ipv4 (record { s_addr = 33554442; sin_port = 14445 })

-- "\xFF\xFF\xFF\xFFheartbeat DarkPlaces\n"
abbrev heartbeat_packet : List ℕ
heartbeat_packet = 255 ∷ 255 ∷ 255 ∷ 255 ∷ codes "heartbeat DarkPlaces\n"

abbrev eleven : List ℕ
eleven = 0 ∷ 5 ∷ 10 ∷ 20 ∷ 30 ∷ 40 ∷ 50 ∷ 60 ∷ 70 ∷ 80 ∷ 93 ∷ []

abbrev answer : Option (Master × List Sent)
answer = receive begun [] heartbeat_packet sender 300 (3 ∷ eleven)

abbrev result_in : Option (Master × List Sent) → Master × List Sent
result_in none = (begun, [])
result_in (some r) = r

answer_lem : answer ≡ some (result_in answer)
unfolding Returns
answer_lem =
    let (r, run, w) =
      receive-Returns begun [] heartbeat_packet sender 300 3 eleven begun-IsReady.0
        (λ h. begun-IsReady.1) (ground arith) (omega arith) in
    run ∙ ap some (sym (ap result_in run))

after-Reachable : Reachable launch (result_in answer).0
after-Reachable =
    received begun (result_in answer).0 (result_in answer).1 [] heartbeat_packet sender 300 3 eleven
      (entered begun enter_lem) (λ h. begun-IsReady.1) (ground arith) (omega arith) answer_lem

-- A signal comes, and the list is printed into the log.
after_signal : Reachable launch (update_log_status true (result_in answer).0 400)
after_signal = signalled (result_in answer).0 true 400 after-Reachable

Reachable-IsSound_example : IsSound (update_log_status true (result_in answer).0 400)
Reachable-IsSound_example =
    Reachable-IsSound launch (update_log_status true (result_in answer).0 400) bounded tt
      after_signal
