-- ===== src/CommandLine/Settings.antt =====
-- src/dpmaster.c: the ranges of the settings, which every option keeps.
use dpmaster_x.Prelude.{
  ℕ, ◌^◌, ◌≤◌, ◌<◌, ◌≡◌, inl, inr, Option, ltb_ℤ, true, ◌||◌, none, some, List, [], ◌∷◌, arith,
  length, length-append, Option-cases, OnSome, uint32, ℤ, pos, negsuc, length-take,
}
use dpmaster_x.Text.{Text}
use dpmaster_x.Properties.Update.{update_properties}
use dpmaster_x.Clients
use dpmaster_x.Clients.{set_fp_decay_time, set_fp_throttle, set_max_nb_clients}
use dpmaster_x.Servers.Config.{set_hash_size, set_max_nb_servers, set_max_nb_servers_per_address}
use dpmaster_x.Servers.State.{set_state_file}
use dpmaster_x.CommandLine.Options.{Choice, choice_of, CmdlineOption}
use dpmaster_x.CommandLine.{
  Program, Memory, Result, whole_number, set_number, number_option, text_option, flag_option,
  game_option, run_choice, cmdline_option, sys_cmdline_option,
}
use dpmaster_x.CommandLine.Options.Choice.{
  allow_loopback, flood_protection, fp_decay_time, fp_throttle, cl_hash_size, game_properties,
  game_policy, help, hash_ports, hash_size, listen, log, log_file, map, state_file, max_clients,
  max_servers, max_servers_per_addr, port, verbose,
}

-- The settings are in their ranges, and the state file has these contents.
pub record IsConfigured (contents : Option Text) (p : Program) : Type 0 where
  pub sv_hash_size : p.servers.sv_hash_size ≤ 16
  pub max_nb_servers : (0 < p.servers.max_nb_servers) × (p.servers.max_nb_servers < 2 ^ 32)
  pub max_per_address : p.servers.max_per_address < 2 ^ 32
  pub cl_hash_size : p.clients.cl_hash_size ≤ 16
  pub max_nb_clients : (0 < p.clients.max_nb_clients) × (p.clients.max_nb_clients < 2 ^ 32)
  pub fp_decay_time : 0 < p.clients.fp_decay_time
  pub fp_throttle :
      (ltb_ℤ p.clients.fp_throttle (pos 0) || ltb_ℤ (pos 1) p.clients.fp_throttle ≡ true)
      × (ltb_ℤ p.clients.fp_throttle (pos (2 ^ 31)) ≡ true)
  pub master_port : (0 < p.master_port) × (p.master_port < 2 ^ 16)
  pub max_msg_level : p.max_msg_level ≤ 4
  pub listen_addresses : length p.listen_addresses ≤ 8
  pub unused :
      (p.servers.nb_servers ≡ 0)
      × (p.servers.last_used_slot ≡ none)
      × (p.servers.first_free_slot ≡ some 0)
  pub state_contents : p.state_file.contents ≡ contents
  pub log_filepath : (0 < length p.log_filepath) × (length p.log_filepath ≤ 4095)

uint32-lt : (z : ℤ) → uint32 z < 2 ^ 32
uint32-lt (pos n) = omega arith
uint32-lt (negsuc n) = omega arith

abbrev pub Configures : Option Text → Result → Type 0
Configures contents r = OnSome (λ q. IsConfigured contents q.0) r

module _ {contents : Option Text} where
  set_number-IsConfigured :
      (p : Program) (choice : Choice) (n : ℕ)
      → IsConfigured contents p
      → n < 2 ^ 32
      → IsConfigured contents (set_number p choice n).0
  unfolding set_number set_fp_decay_time set_fp_throttle set_max_nb_clients Clients.set_hash_size
      set_hash_size set_max_nb_servers set_max_nb_servers_per_address
  set_number-IsConfigured p fp_decay_time n c h = ground arith
  set_number-IsConfigured p _ n c h = ground arith

  number_option-IsConfigured :
      (p : Program) (choice : Choice) (param : Text)
      → IsConfigured contents p
      → IsConfigured contents (number_option p choice param).0
  unfolding number_option
  number_option-IsConfigured p choice param c = elim (Option-cases (whole_number param)) [
    | inl e ↦ rw (e, number_option) c
    | inr (z, e) ↦
        rw (e, number_option) (set_number-IsConfigured p choice (uint32 z) c (uint32-lt z))
  ]

  text_option-IsConfigured :
      (p : Program) (choice : Choice) (m : Memory) (param : Text)
      → IsConfigured contents p
      → IsConfigured contents (text_option p choice m param).0
  unfolding text_option set_state_file
  text_option-IsConfigured p listen m [] c = c
  text_option-IsConfigured p listen m (x ∷ s) c =
      ground (arith, length-append p.listen_addresses ((x ∷ s) ∷ []))
  text_option-IsConfigured p log_file m [] c = ground arith
  text_option-IsConfigured p log_file m (x ∷ s) c = ground (arith, length-take 4095 (x ∷ s))
  text_option-IsConfigured p _ m param c = ground arith

  flag_option-IsConfigured :
      (p : Program) (choice : Choice)
      → IsConfigured contents p
      → IsConfigured contents (flag_option p choice).0
  flag_option-IsConfigured p verbose c = ground arith
  flag_option-IsConfigured p _ c = ground arith

  game_option-Configures :
      (p : Program) (choice : Choice) (m : Memory) (param : Text) (params : List Text)
      → IsConfigured contents p
      → Configures contents (game_option p choice m param params)
  unfolding game_option
  game_option-Configures p game_properties m param params c =
      elim (Option-cases (update_properties p.registry param params)) [
        | inl e ↦ rw (e, game_option) tt
        | inr ((registry, status), e) ↦ rw (e, game_option) (ground arith)
      ]
  game_option-Configures p _ m param params c = ground arith

  run_choice-Configures :
      (p : Program) (choice : Choice) (m : Memory) (params : List Text)
      → IsConfigured contents p
      → Configures contents (run_choice p choice m params)
  unfolding run_choice
  run_choice-Configures p allow_loopback m params c = flag_option-IsConfigured p allow_loopback c
  run_choice-Configures p flood_protection m params c =
      flag_option-IsConfigured p flood_protection c
  run_choice-Configures p help m params c = c
  run_choice-Configures p hash_ports m params c = flag_option-IsConfigured p hash_ports c
  run_choice-Configures p log m params c = flag_option-IsConfigured p log c
  run_choice-Configures p verbose m [] c = flag_option-IsConfigured p verbose c
  run_choice-Configures p game_properties m [] c = c
  run_choice-Configures p game_properties m (game ∷ []) c = c
  run_choice-Configures p game_properties m (game ∷ prop ∷ props) c =
      game_option-Configures p game_properties m game (prop ∷ props) c
  run_choice-Configures p game_policy m [] c = tt
  run_choice-Configures p game_policy m (policy ∷ games) c =
      game_option-Configures p game_policy m policy games c
  run_choice-Configures p listen m [] c = tt
  run_choice-Configures p listen m (param ∷ params) c = text_option-IsConfigured p listen m param c
  run_choice-Configures p log_file m [] c = tt
  run_choice-Configures p log_file m (param ∷ params) c =
      text_option-IsConfigured p log_file m param c
  run_choice-Configures p map m [] c = tt
  run_choice-Configures p map m (param ∷ params) c = text_option-IsConfigured p map m param c
  run_choice-Configures p state_file m [] c = tt
  run_choice-Configures p state_file m (param ∷ params) c =
      text_option-IsConfigured p state_file m param c
  run_choice-Configures p fp_decay_time m [] c = tt
  run_choice-Configures p fp_decay_time m (param ∷ params) c =
      number_option-IsConfigured p fp_decay_time param c
  run_choice-Configures p fp_throttle m [] c = tt
  run_choice-Configures p fp_throttle m (param ∷ params) c =
      number_option-IsConfigured p fp_throttle param c
  run_choice-Configures p cl_hash_size m [] c = tt
  run_choice-Configures p cl_hash_size m (param ∷ params) c =
      number_option-IsConfigured p cl_hash_size param c
  run_choice-Configures p hash_size m [] c = tt
  run_choice-Configures p hash_size m (param ∷ params) c =
      number_option-IsConfigured p hash_size param c
  run_choice-Configures p max_clients m [] c = tt
  run_choice-Configures p max_clients m (param ∷ params) c =
      number_option-IsConfigured p max_clients param c
  run_choice-Configures p max_servers m [] c = tt
  run_choice-Configures p max_servers m (param ∷ params) c =
      number_option-IsConfigured p max_servers param c
  run_choice-Configures p max_servers_per_addr m [] c = tt
  run_choice-Configures p max_servers_per_addr m (param ∷ params) c =
      number_option-IsConfigured p max_servers_per_addr param c
  run_choice-Configures p port m [] c = tt
  run_choice-Configures p port m (param ∷ params) c = number_option-IsConfigured p port param c
  run_choice-Configures p verbose m (param ∷ params) c =
      number_option-IsConfigured p verbose param c

  pub cmdline_option-Configures :
      (p : Program) (m : Memory) (opt : CmdlineOption) (params : List Text)
      → IsConfigured contents p
      → Configures contents (cmdline_option p m opt params)
  unfolding cmdline_option
  cmdline_option-Configures p m opt params c = elim (Option-cases (choice_of opt.long_name)) [
    | inl e ↦ rw (e, cmdline_option) c
    | inr (choice, e) ↦ rw (e, cmdline_option) (run_choice-Configures p choice m params c)
  ]

  pub sys_cmdline_option-Configures :
      (p : Program) (opt : CmdlineOption) (params : List Text)
      → IsConfigured contents p
      → Configures contents (sys_cmdline_option p opt params)
  unfolding sys_cmdline_option
  sys_cmdline_option-Configures p opt [] c = ground arith
  sys_cmdline_option-Configures p opt (param ∷ params) c = ground arith
