-- ===== src/Messages/InfoResponse.antt =====
-- src/messages.c: HandleInfoResponse.
pub mod Accepted
use dpmaster_x.Prelude.{
  pos, ℕ, ◌+◌, ◌*◌, Bool, true, false, not, ◌||◌, ◌&&◌, Option, none, some, List, [], ◌∷◌, ltb,
  ◌==◌, if◌then◌else◌, take, ℤ, uint32,
}
use dpmaster_x.Text.{Text, codes, str_eq, has_char, strtol, to_int, atoi}
use dpmaster_x.Games.{Policy, is_accepted}
use dpmaster_x.Servers.{Server, ServerState, empty, occupied, full}
use dpmaster_x.Messages.Infostring.{search_infostring}

-- TIMEOUT_INFORESPONSE
abbrev pub timeout_inforesponse : ℕ
timeout_inforesponse = 15 * 60

-- The challenge is not set, or obsolete.
abbrev pub is_obsolete : Server → ℕ → Bool
is_obsolete server crt_time = server.challenge_timeout == 0 || ltb server.challenge_timeout crt_time

abbrev pub matches : Option Text → Text → Bool
matches none challenge = false
matches (some value) challenge = str_eq value challenge

-- The whole value is a number.
unfoldable pub parse_protocol : Option Text → Option ℤ
parse_protocol none = none
parse_protocol (some value) = elim (strtol value) [
  | none ↦ none
  | some (z, []) ↦ some (to_int z)
  | some (z, c ∷ rest) ↦ none
]

-- "0" without a value; none if the value contains a space.
unfoldable pub parse_gametype : Option Text → Option Text
parse_gametype none = some (codes "0")
parse_gametype (some value) = if has_char b' ' value then none else some (take 31 value)

-- `(unsigned int)atoi (value)`, 0 without a value
unfoldable pub parse_count : Option Text → ℕ
parse_count none = 0
parse_count (some value) = uint32 (atoi value)

-- The game name: that of the heartbeat if none was sent, which a name that was sent must match.
unfoldable pub choose_gamename : Option Text → Option Text → Option Text
choose_gamename none hb_properties = hb_properties
choose_gamename (some value) none = some value
choose_gamename (some value) (some name) = if str_eq value name then some value else none

-- Not void, and no spaces.
unfoldable pub is_valid_name : Text → Bool
is_valid_name [] = false
is_valid_name (c ∷ s) = not (has_char b' ' (c ∷ s))

unfoldable pub new_state : ℕ → ℕ → ServerState
new_state new_clients new_maxclients =
    if new_clients == 0 then empty else if new_clients == new_maxclients then full else occupied

-- What is saved in the server entry. `gamename` was cleared when the entry was made, and
-- `strncpy` leaves its last byte alone.
unfoldable pub update_server : Server → Text → ℤ → Text → ServerState → ℕ → Server
update_server server gamename protocol gametype state crt_time = record server {
  gamename = take 63 gamename;
  protocol = protocol;
  anon_properties = server.hb_properties;
  gametype = gametype;
  state = state;
  timeout = pos (crt_time + timeout_inforesponse);
}

-- The checks behind the one of the game type.
unfoldable pub finish_info_response : Policy → Server → Text → ℕ → ℤ → Text → Option Server
unfolding parse_count choose_gamename is_valid_name new_state update_server
finish_info_response policy server msg crt_time new_protocol new_gametype =
    let new_maxclients = parse_count (search_infostring msg (codes "sv_maxclients")) in
    if new_maxclients == 0 then none else (elim (search_infostring msg (codes "clients")) [
      | none ↦ none
      | some clients ↦
          elim (choose_gamename (search_infostring msg (codes "gamename")) server.hb_properties) [
            | none ↦ none
            | some gamename ↦
                if not (is_valid_name gamename)
                then none
                else if not (is_accepted policy gamename)
                then none
                else some (
                    update_server server gamename new_protocol new_gametype
                      (new_state (parse_count (some clients)) new_maxclients) crt_time)
          ]
    ])

-- HandleInfoResponse: the new contents of the server entry; none if the message is rejected and
-- the entry stays as it is. Sv_SaveState follows a change.
unfoldable pub handle_info_response : Policy → Server → Text → ℕ → Option Server
unfolding finish_info_response parse_protocol parse_gametype
handle_info_response policy server msg crt_time =
    if is_obsolete server crt_time
    then none
    else if not (matches (search_infostring msg (codes "challenge")) server.challenge)
    then none
    else (elim (parse_protocol (search_infostring msg (codes "protocol"))) [
      | none ↦ none
      | some new_protocol ↦ elim (parse_gametype (search_infostring msg (codes "gametype"))) [
        | none ↦ none
        | some new_gametype ↦
            finish_info_response policy server msg crt_time new_protocol new_gametype
      ]
    ])
