-- ===== src/Messages/InfoResponse/Accepted.antt =====
-- src/messages.c: what HandleInfoResponse checks before it changes a server entry.
use Prim.{tt}
use dpmaster_x.Prelude.{
  pos, ℕ, ◌+◌, ◌≡◌, ◌≢◌, ◌≤◌, OnSome, OnSome-at, refl, ap, true, false, Option, none, some, [], ◌∷◌,
  ◌==◌, take, ℤ, arith, inl, inr, Bool-cases, Option-cases,
}
use dpmaster_x.Text.{Text, codes, str_eq, has_char}
use dpmaster_x.Text.Order.{str_eq_iff}
use dpmaster_x.Games.{Policy, is_accepted}
use dpmaster_x.Servers.{Server}
use dpmaster_x.Messages.Infostring.{search_infostring}
use dpmaster_x.Messages.GetServers.{is_initialized}
use dpmaster_x.Messages.InfoResponse.{
  is_obsolete, matches, parse_protocol, parse_gametype, parse_count, choose_gamename, is_valid_name,
  new_state, finish_info_response, handle_info_response, timeout_inforesponse,
}

-- An accepted infoResponse: it answers the last getinfo in time, and names a game that the master
-- takes, the one of the heartbeat if that named one; the server counts as known for a while.
pub record IsAccepted (policy : Policy) (server : Server) (msg : Text) (crt_time : ℕ) (new : Server)
    : Type 0 where
  pub challenge : search_infostring msg (codes "challenge") ≡ some server.challenge
  pub sent : server.challenge_timeout ≢ 0
  pub in_time : crt_time ≤ server.challenge_timeout
  pub same_game : (name : Text) → server.hb_properties ≡ some name → new.gamename ≡ take 63 name
  pub accepted :
      (name : Text) × (new.gamename ≡ take 63 name)
      × (is_accepted policy name ≡ true)
      × (has_char b' ' name ≡ false)
  pub initialized : is_initialized new.state ≡ true
  pub timeout : new.timeout ≡ pos (crt_time + timeout_inforesponse)
  pub address : new.address ≡ server.address
  pub kept_challenge : new.challenge ≡ server.challenge

-- The checks behind the one of the challenge.
record IsFinished (policy : Policy) (server : Server) (crt_time : ℕ) (new : Server) : Type 0 where
  same_game : (name : Text) → server.hb_properties ≡ some name → new.gamename ≡ take 63 name
  accepted :
      (name : Text) × (new.gamename ≡ take 63 name)
      × (is_accepted policy name ≡ true)
      × (has_char b' ' name ≡ false)
  initialized : is_initialized new.state ≡ true
  timeout : new.timeout ≡ pos (crt_time + timeout_inforesponse)
  address : new.address ≡ server.address
  kept_challenge : new.challenge ≡ server.challenge

new_state_initialized : (a b : ℕ) → is_initialized (new_state a b) ≡ true
unfolding new_state
new_state_initialized a b = ground arith

is_valid_name_lem : (name : Text) → is_valid_name name ≡ true → has_char b' ' name ≡ false
unfolding is_valid_name
is_valid_name_lem [] h = absurd (ground arith)
is_valid_name_lem (c ∷ s) h = ground arith

choose_gamename_lem :
    (sent hb : Option Text) (gamename name : Text)
    → choose_gamename sent hb ≡ some gamename
    → hb ≡ some name
    → gamename ≡ name
unfolding choose_gamename
choose_gamename_lem none hb gamename name h e = cc
choose_gamename_lem (some value) none gamename name h e = cc
choose_gamename_lem (some value) (some n) gamename name h e = elim (Bool-cases (str_eq value n)) [
  | inl same ↦
      let chosen : some value ≡ choose_gamename (some value) (some n) =
        rw (same, choose_gamename) refl in
      let agree : value ≡ n = (str_eq_iff value n).0 same in cc
  | inr other ↦
      let chosen : none ≡ choose_gamename (some value) (some n) =
        rw (other, choose_gamename) refl in
      cc
]

finish-IsFinished :
    (policy : Policy) (server : Server) (msg : Text) (crt_time : ℕ) (protocol : ℤ) (gametype : Text)
    → OnSome
        (IsFinished policy server crt_time)
        (finish_info_response policy server msg crt_time protocol gametype)
unfolding finish_info_response
finish-IsFinished policy server msg crt_time protocol gametype =
    elim (Bool-cases (parse_count (search_infostring msg (codes "sv_maxclients")) == 0)) [
      | inl zero_max ↦ rw (zero_max, finish_info_response) tt
      | inr some_max ↦ elim (Option-cases (search_infostring msg (codes "clients"))) [
        | inl missing ↦ rw (some_max, missing, finish_info_response) tt
        | inr (clients, c) ↦
            elim (Option-cases
              (choose_gamename (search_infostring msg (codes "gamename")) server.hb_properties)) [
                | inl mismatch ↦ rw (some_max, c, mismatch, finish_info_response) tt
                | inr (gamename, g) ↦ elim (Bool-cases (is_valid_name gamename)) [
                  | inr invalid ↦ rw (some_max, c, g, invalid, finish_info_response) tt
                  | inl valid ↦ elim (Bool-cases (is_accepted policy gamename)) [
                    | inr refused ↦ rw (some_max, c, g, valid, refused, finish_info_response) tt
                    | inl accepted ↦
                        rw (some_max, c, g, valid, accepted, finish_info_response)
                          (record {
                            same_game = λ name e. ap (take 63) (
                                choose_gamename_lem (search_infostring msg (codes "gamename"))
                                  server.hb_properties gamename name g e);
                            accepted = (gamename, refl, accepted, is_valid_name_lem gamename valid);
                            initialized =
                                new_state_initialized (parse_count (some clients))
                                  (parse_count (search_infostring msg (codes "sv_maxclients")));
                            timeout = refl;
                            address = refl;
                            kept_challenge = refl;
                          })
                  ]
                ]
              ]
      ]
    ]

matches_lem :
    (sent : Option Text) (challenge : Text) → matches sent challenge ≡ true → sent ≡ some challenge
matches_lem none challenge h = cc
matches_lem (some value) challenge h = ap some ((str_eq_iff value challenge).0 h)

finished-IsAccepted :
    (policy : Policy) (server : Server) (msg : Text) (crt_time : ℕ)
    → is_obsolete server crt_time ≡ false
    → matches (search_infostring msg (codes "challenge")) server.challenge ≡ true
    → (result : Option Server) → OnSome (IsFinished policy server crt_time) result
    → OnSome (IsAccepted policy server msg crt_time) result
finished-IsAccepted policy server msg crt_time fresh match none f = tt
finished-IsAccepted policy server msg crt_time fresh match (some new) f = record {
  challenge = matches_lem (search_infostring msg (codes "challenge")) server.challenge match;
  sent = ground (arith, fresh);
  in_time = ground (arith, fresh);
  same_game = f.same_game;
  accepted = f.accepted;
  initialized = f.initialized;
  timeout = f.timeout;
  address = f.address;
  kept_challenge = f.kept_challenge;
}

-- If HandleInfoResponse changes a server entry, then the message repeats the challenge last sent
-- to that server before it became obsolete, the game name is accepted by the policy, has no
-- space and is that of the heartbeat if the heartbeat named a game, and the entry is
-- initialised, times out fifteen minutes later, and keeps its address and its challenge.
pub handle_info_response-IsAccepted :
    (policy : Policy) (server : Server) (msg : Text) (crt_time : ℕ) (new : Server)
    → handle_info_response policy server msg crt_time ≡ some new
    → IsAccepted policy server msg crt_time new
unfolding handle_info_response
handle_info_response-IsAccepted policy server msg crt_time new h =
    OnSome-at (IsAccepted policy server msg crt_time) checked h
  where
    checked :
        OnSome
          (IsAccepted policy server msg crt_time)
          (handle_info_response policy server msg crt_time)
    checked = elim (Bool-cases (is_obsolete server crt_time)) [
      | inl late ↦ rw (late, handle_info_response) tt
      | inr fresh ↦
          elim (Bool-cases (matches (search_infostring msg (codes "challenge")) server.challenge)) [
            | inr wrong ↦ rw (fresh, wrong, handle_info_response) tt
            | inl match ↦
                elim (Option-cases (parse_protocol (search_infostring msg (codes "protocol")))) [
                  | inl missing ↦ rw (fresh, match, missing, handle_info_response) tt
                  | inr (protocol, p) ↦
                      elim (Option-cases
                        (parse_gametype (search_infostring msg (codes "gametype")))) [
                          | inl bad ↦ rw (fresh, match, p, bad, handle_info_response) tt
                          | inr (gametype, g) ↦
                              rw (fresh, match, p, g, handle_info_response)
                                (finished-IsAccepted policy server msg crt_time fresh match
                                  (finish_info_response policy server msg crt_time protocol
                                    gametype)
                                  (finish-IsFinished policy server msg crt_time protocol gametype))
                        ]
                ]
          ]
    ]
