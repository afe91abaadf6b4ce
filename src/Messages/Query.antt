-- ===== src/Messages/Query.antt =====
-- src/messages.c: the first part of HandleGetServers, which parses the request.
use dpmaster_x.Prelude.{
  Bool, true, false, not, ◌&&◌, Option, none, some, List, [], ◌∷◌, ◌==◌, if◌then◌else◌, take, drop,
  length, ℤ,
}
use dpmaster_x.Text.{Text, codes, str_eq, after_prefix, before_char, tokens, strtol, to_int}
use dpmaster_x.Properties.{Registry, GameOptions, no_options}
use dpmaster_x.Properties.Lookups.{get_name_by_protocol, get_options}

-- The options of a request.
pub record Options : Type 0 where
  pub opt_empty : Bool
  pub opt_full : Bool
  pub opt_ipv4 : Bool
  pub opt_ipv6 : Bool
  pub opt_gametype : Bool
  pub gametype : Text

-- The game name, the protocol, the options of the game, and the text at `msg_ptr`. An empty name
-- is an unknown game.
pub record Header : Type 0 where
  pub gamename : Text
  pub protocol : ℤ
  pub game_options : GameOptions
  pub msg_ptr : Text

-- `*end_ptr == ' ' || *end_ptr == '\0'`
abbrev pub ends_number : Text → Bool
ends_number [] = true
ends_number (c ∷ s) = c == b' '

-- A number that ends there, and the text behind it.
unfoldable pub parse_number : Text → Option (ℤ × Text)
parse_number s = elim (strtol s) [
  | none ↦ none
  | some (z, rest) ↦ if ends_number rest then some (to_int z, rest) else none
]

unfoldable pub skip_blanks : Text → Text
skip_blanks [] = []
skip_blanks (c ∷ s) = let rest = skip_blanks s in if c == b' ' then rest else c ∷ s

-- A request that names its game; none if the name or the number is missing or invalid.
unfoldable pub parse_named : Registry → Text → Option Header
unfolding parse_number skip_blanks
parse_named r msg = elim (skip_blanks msg) [
  | [] ↦ none
  | c ∷ s ↦
      let gamename = before_char b' ' (take 63 (c ∷ s)) in
      let msg_ptr = drop (length gamename) (c ∷ s) in
      elim (parse_number msg_ptr) [
        | none ↦ none
        | some (protocol, rest) ↦ some (record {
          gamename = gamename;
          protocol = protocol;
          game_options = get_options r gamename;
          msg_ptr = msg_ptr;
        })
      ]
]

-- A request with a protocol number only.
unfoldable pub parse_anonymous : Registry → ℤ → Text → Header
parse_anonymous r protocol end_ptr = elim (get_name_by_protocol r protocol) [
  | none ↦ record {
    gamename = [];
    protocol = protocol;
    game_options = no_options;
    msg_ptr = end_ptr;
  }
  | some (name, game_options) ↦ record {
    gamename = take 63 name;
    protocol = protocol;
    game_options = game_options;
    msg_ptr = end_ptr;
  }
]

-- An extended request names its game. Another one does if no number stands first.
unfoldable pub parse_header : Registry → Bool → Text → Option Header
unfolding parse_named parse_anonymous
parse_header r true msg = parse_named r msg
parse_header r false msg = elim (parse_number msg) [
  | none ↦ parse_named r msg
  | some (protocol, end_ptr) ↦ some (parse_anonymous r protocol end_ptr)
]

unfoldable pub set_gametype : Text → Options → Options
set_gametype gametype o = record o { gametype = gametype; opt_gametype = true }

-- One round of the loop over the filtering options.
unfoldable pub parse_option : Bool → Text → Options → Options
unfolding set_gametype
parse_option extended_request option o =
    if str_eq option (codes "empty")
    then record o { opt_empty = true }
    else if str_eq option (codes "full")
    then record o { opt_full = true }
    else if str_eq option (codes "ffa")
    then set_gametype (codes "0") o
    else if str_eq option (codes "tourney")
    then set_gametype (codes "1") o
    else if str_eq option (codes "team")
    then set_gametype (codes "3") o
    else if str_eq option (codes "ctf")
    then set_gametype (codes "4") o
    else (elim (after_prefix (codes "gametype=") option) [
      | some gametype ↦ set_gametype (take 31 gametype) o
      | none ↦
          if not extended_request
          then o
          else if str_eq option (codes "ipv4")
          then record o { opt_ipv4 = true }
          else if str_eq option (codes "ipv6")
          then record o { opt_ipv6 = true }
          else o
    ])

unfoldable pub parse_options : Bool → List Text → Options → Options
parse_options extended_request [] o = o
parse_options extended_request (option ∷ options) o =
    parse_options extended_request options (parse_option extended_request option o)

-- The options before the request is read, with those of the game applied.
abbrev pub initial_options : Bool → GameOptions → Options
initial_options extended_request game_options = record {
  opt_empty = game_options.send_empty_servers;
  opt_full = game_options.send_full_servers;
  opt_ipv4 = not extended_request;
  opt_ipv6 = false;
  opt_gametype = false;
  gametype = codes "0";
}

-- "If no IP version was given for the filtering, accept any version"
unfoldable pub any_version : Options → Options
any_version o =
    if not o.opt_ipv4 && not o.opt_ipv6 then record o { opt_ipv4 = true; opt_ipv6 = true } else o

-- `filter_options` has room for 2047 bytes.
unfoldable pub read_options : Bool → Header → Options
unfolding parse_options any_version
read_options extended_request h = any_version (
    parse_options extended_request (tokens b' ' (take 2047 h.msg_ptr))
      (initial_options extended_request h.game_options))
