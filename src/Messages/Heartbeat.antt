-- ===== src/Messages/Heartbeat.antt =====
-- src/messages.c: BuildChallenge, SendGetInfo and HandleHeartbeat. `rand` is given as the list of
-- the numbers that it returns; a result `none` means that the list was too short.
pub mod Challenge
use dpmaster_x.Prelude.{
  ℕ, zero, suc, ◌+◌, ◌-◌, ◌%◌, Bool, true, false, not, ◌||◌, Option, none, some, List, [], ◌∷◌,
  ◌++◌, ltb, ◌==◌, if◌then◌else◌, take, set,
}
use dpmaster_x.Text.{Text, codes, str_eq, scan_word}
use dpmaster_x.Address.{Address}
use dpmaster_x.Games.{is_accepted}
use dpmaster_x.Properties.{GameProperties, heartbeat_dark_places}
use dpmaster_x.Properties.Lookups.{get_properties_by_heartbeat}
use dpmaster_x.Servers.{Server, server_at}
use dpmaster_x.Servers.Lookup.{get_by_addr}
use dpmaster_x.Messages.Packet.{out_of_band}
use dpmaster_x.Messages.Master.{Master, Sent}

-- The bytes that the program keeps out of challenges.
abbrev pub is_forbidden : ℕ → Bool
is_forbidden c = c == b'\\' || (c == b';' || (c == b'"' || (c == b'%' || c == b'/')))

-- One byte of a challenge, and the numbers that are left.
unfoldable pub challenge_char : List ℕ → Option (ℕ × List ℕ)
challenge_char [] = none
challenge_char (rand ∷ rands) =
    let c = 33 + rand % (126 - 33 + 1) in
    let again = challenge_char rands in if is_forbidden c then again else some (c, rands)

unfoldable pub challenge_chars : ℕ → List ℕ → Option (Text × List ℕ)
challenge_chars zero rands = some ([], rands)
challenge_chars (suc n) rands = elim (challenge_char rands) [
  | none ↦ none
  | some (c, rest) ↦ elim (challenge_chars n rest) [
    | none ↦ none
    | some (s, rest') ↦ some (c ∷ s, rest')
  ]
]

-- CHALLENGE_MIN_LENGTH and CHALLENGE_MAX_LENGTH, which count the '\0'
abbrev pub challenge_min_length : ℕ
challenge_min_length = 9

abbrev pub challenge_max_length : ℕ
challenge_max_length = 12

-- BuildChallenge
unfoldable pub build_challenge : List ℕ → Option (Text × List ℕ)
unfolding challenge_char challenge_chars
build_challenge [] = none
build_challenge (rand ∷ rands) =
    challenge_chars
      (challenge_min_length - 1 + rand % (challenge_max_length - challenge_min_length + 1)) rands

-- TIMEOUT_CHALLENGE
abbrev pub timeout_challenge : ℕ
timeout_challenge = 2

abbrev pub needs_challenge : Server → Bool → ℕ → Bool
needs_challenge server force crt_time =
    force || (server.challenge_timeout == 0 || ltb server.challenge_timeout crt_time)

-- The message of SendGetInfo; `msg` has 64 bytes.
abbrev pub getinfo_message : Text → List ℕ
getinfo_message challenge = take 63 (out_of_band ++ codes "getinfo " ++ challenge)

-- SendGetInfo: the server with its challenge, and the message.
unfoldable pub send_get_info : Server → Bool → ℕ → List ℕ → Option (Server × List ℕ)
send_get_info server force_new_challenge crt_time rands =
    if needs_challenge server force_new_challenge crt_time
    then (elim (build_challenge rands) [
      | none ↦ none
      | some (challenge, rest) ↦
          let server' = record server {
            challenge_timeout = crt_time + timeout_challenge;
            challenge = take 11 challenge;
          } in
          some (server', getinfo_message server'.challenge)
    ])
    else some (server, getinfo_message server.challenge)

-- `server->hb_properties != game_props`
abbrev pub differ : Option Text → Option Text → Bool
differ none none = false
differ none (some b) = true
differ (some a) none = true
differ (some a) (some b) = not (str_eq a b)

-- The properties that the tag names: none if the heartbeat is ignored.
unfoldable pub accepted_properties : Master → Text → Option (Option Text)
accepted_properties m tag =
    if str_eq tag heartbeat_dark_places
    then some none
    else (let found = get_properties_by_heartbeat m.registry.properties tag in
        elim found.0 [
          | none ↦ none
          | some game_props ↦
              if found.1
              then none
              else if not (is_accepted m.policy game_props.name)
              then none
              else some (some game_props.name)
        ])

-- The heartbeat of an accepted game.
unfoldable pub answer_heartbeat :
    Master → Address → ℕ → List ℕ → Option Text → Option (Master × List Sent)
unfolding send_get_info
answer_heartbeat m addr crt_time rands game_props =
    let got = get_by_addr m.servers addr true crt_time in
    elim got.1 [
      | none ↦ some (record m { servers = got.0 }, [])
      | some i ↦
          let server = server_at got.0 i in
          elim (send_get_info server (differ server.hb_properties game_props) crt_time rands) [
            | none ↦ none
            | some (server', msg) ↦
                let saved = record server' { hb_properties = game_props } in
                some (
                  record m { servers = record got.0 { servers = set got.0.servers i saved } },
                  record { to = server'.address; bytes = msg } ∷ [],
                )
          ]
    ]

-- HandleHeartbeat. `stale` is what the local `tag` holds where `sscanf` finds no word.
unfoldable pub handle_heartbeat :
    Master → Text → Text → Address → ℕ → List ℕ → Option (Master × List Sent)
unfolding accepted_properties answer_heartbeat
handle_heartbeat m stale msg addr crt_time rands =
    let tag : Text = elim (scan_word 63 msg) [ none ↦ stale | some word ↦ word ] in
    elim (accepted_properties m tag) [
      | none ↦ some (m, [])
      | some game_props ↦ answer_heartbeat m addr crt_time rands game_props
    ]
