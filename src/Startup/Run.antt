-- ===== src/Startup/Run.antt =====
-- src/dpmaster.c: main, from the start through the packets that its loop receives.
use dpmaster_x.Prelude.{
  Bool, true, false, if◌then◌else◌, ℕ, ◌≤◌, ◌≡◌, sym, Option, some, List, ◌∷◌, length, OnSome,
  OnSome-at, subst,
}
use dpmaster_x.Text.{Text}
use dpmaster_x.Address.{Address}
use dpmaster_x.Properties.{Registry}
use dpmaster_x.Servers.Slots.{
  IsWellFormed, IsCalmFrom, check_timeouts-keeps, check_timeouts-IsWellFormed,
}
use dpmaster_x.Servers.Slots.Searched.{is_active-Indexed}
use dpmaster_x.Servers.Iterate.{print_server_list}
use dpmaster_x.Servers.Slots.Indexed.{Indexed}
use dpmaster_x.Servers.State.{AddressText}
use dpmaster_x.Servers.State.Safe.{IsReady, IsTimely}
use dpmaster_x.Messages.Master.{Master, Sent}
use dpmaster_x.Messages.GetServers.Answers.{Returns}
use dpmaster_x.Messages.Handle.{receive}
use dpmaster_x.Messages.Handle.Safe.{IsHeartbeat, receive-Returns}
use dpmaster_x.Messages.Handle.Chains.{receive-Keeps}
use dpmaster_x.Messages.Heartbeat.Challenge.{AllUsable}
use dpmaster_x.CommandLine.{Memory}
use dpmaster_x.Startup.{System, initial_program, start}
use dpmaster_x.Startup.Ready.{IsBounded, start-IsReady}

-- What the program is started with.
pub record Launch : Type 0 where
  pub api : AddressText
  pub gethostbyname : Text → Option ℕ
  pub system : System
  pub memory : Memory
  pub start_time : ℕ
  pub registry : Registry
  pub contents : Option Text
  pub args : List Text

abbrev pub enter : Launch → Option Master
enter l =
    start l.api l.gethostbyname l.system l.memory l.start_time
      (initial_program l.registry l.contents) l.args

-- Com_UpdateLogStatus (false), in every round of the main loop: if the log file must be opened, as
-- SIGUSR1 asks for, and is, then Sv_PrintServerList prints the list into it.
abbrev pub update_log_status : Bool → Master → ℕ → Master
update_log_status opens m crt_time =
    if opens then record m { servers = print_server_list m.servers crt_time } else m

-- The states of the main loop. A heartbeat is received only while no server has timed out, and the
-- numbers of `rand` give a challenge.
pub data Reachable (l : Launch) : Master → Type 0 where
  entered : (m : Master) → enter l ≡ some m → Reachable l m
  received :
      (m m' : Master) (sent : List Sent) (stale : Text) (packet : List ℕ) (address : Address)
      (crt_time rand : ℕ) (rands : List ℕ)
      → Reachable l m
      → (IsHeartbeat packet address → IsCalmFrom m.servers 0 crt_time)
      → AllUsable rands
      → 11 ≤ length rands
      → receive m stale packet address crt_time (rand ∷ rands) ≡ some (m', sent)
      → Reachable l m'
  signalled :
      (m : Master) (opens : Bool) (crt_time : ℕ)
      → Reachable l m
      → Reachable l (update_log_status opens m crt_time)

abbrev pub IsSound : Master → Type 0
IsSound m = IsWellFormed m.servers × Indexed m.servers

update_log_status-IsSound :
    (m : Master) (opens : Bool) (crt_time : ℕ)
    → IsSound m
    → IsSound (update_log_status opens m crt_time)
update_log_status-IsSound m false crt_time sound = sound
update_log_status-IsSound m true crt_time (w, x) =
    unfold print_server_list in
    (
      check_timeouts-IsWellFormed m.servers crt_time w,
      check_timeouts-keeps Indexed crt_time (λ s i. is_active-Indexed s i crt_time) m.servers x,
    )

Returns-OnSome :
    (result : Option (Master × List Sent))
    → Returns result
    → OnSome (λ r. IsWellFormed r.0.servers) result
unfolding Returns
Returns-OnSome result (r, run, w) = subst (OnSome (λ r. IsWellFormed r.0.servers)) (sym run) w

-- In every state of the main loop the server list is well formed, and its hash chains hold
-- exactly the servers in use, each at the hash of its address: whatever the arguments, the
-- packets received and the signals that print the list into the log, if the system has no memory
-- for an array of 2^31 servers, no line of the state file that can be read has an expiry of 2^63
-- or more, heartbeats come only while no server has timed out, and for each packet the random
-- numbers from the second on are at least eleven and give no forbidden character of a challenge.
pub Reachable-IsSound :
    (l : Launch) (m : Master) → IsBounded l.system → IsTimely l.contents → Reachable l m → IsSound m
Reachable-IsSound l _ b timely (entered m e) =
    let ready =
      OnSome-at (λ (m : Master). IsReady l.start_time m.servers)
        (start-IsReady l.api l.gethostbyname l.system l.memory l.start_time l.registry l.contents
          l.args b timely)
        e in
    (ready.0, ready.2)
Reachable-IsSound l _ b timely
      (received m m' sent stale packet address crt_time rand rands before calm a h e) =
    let (w, x) = Reachable-IsSound l m b timely before in
    (
      OnSome-at (λ (r : Master × List Sent). IsWellFormed r.0.servers)
          (Returns-OnSome _ (receive-Returns m stale packet address crt_time rand rands w calm a h))
          e,
      OnSome-at (λ (r : Master × List Sent). Indexed r.0.servers)
          (receive-Keeps m stale packet address crt_time (rand ∷ rands) w x) e,
    )
Reachable-IsSound l _ b timely (signalled m opens crt_time before) =
    update_log_status-IsSound m opens crt_time (Reachable-IsSound l m b timely before)
