-- ===== src/Messages/Heartbeat/Challenge.antt =====
-- The challenges that SendGetInfo sends.
use dpmaster_x.Prelude.{
  ℕ, zero, suc, ◌+◌, ◌%◌, ◌≤◌, ◌≡◌, refl, Bool, true, false, some, List, [], ◌∷◌, ◌++◌, arith,
  length, take, Bool-cases, Option-cases, inl, inr, ap, ◌∙◌,
}
use dpmaster_x.Text.{Text, codes}
use dpmaster_x.Servers.{Server}
use dpmaster_x.Messages.Packet.{out_of_band}
use dpmaster_x.Messages.Heartbeat.{
  is_forbidden, challenge_char, challenge_chars, build_challenge, needs_challenge, getinfo_message,
  send_get_info,
}

-- Printable, and with no meaning in an infostring, a shell or a format.
abbrev pub AllAllowed : Text → Type 0
AllAllowed [] = Unit {0}
AllAllowed (c ∷ s) = (33 ≤ c) × (c ≤ 126) × (is_forbidden c ≡ false) × AllAllowed s

pub record IsChallenge (s : Text) : Type 0 where
  pub long_enough : 8 ≤ length s
  pub fits : length s ≤ 11
  pub allowed : AllAllowed s

challenge_char-allowed :
    (rands rest : List ℕ) (c : ℕ)
    → challenge_char rands ≡ some (c, rest)
    → (33 ≤ c) × (c ≤ 126) × (is_forbidden c ≡ false)
unfolding challenge_char
challenge_char-allowed [] rest c e = cc
challenge_char-allowed (rand ∷ rands) rest c e = elim (Bool-cases (is_forbidden (33 + rand % 94))) [
  | inl bad ↦ challenge_char-allowed rands rest c (rw bad at e)
  | inr good ↦
      let same : 33 + rand % 94 ≡ c = ground arith in rw (← same) (omega arith, omega arith, good)
]

challenge_chars-allowed :
    (n : ℕ) (rands rest : List ℕ) (s : Text)
    → challenge_chars n rands ≡ some (s, rest)
    → (length s ≡ n) × AllAllowed s
unfolding challenge_chars
challenge_chars-allowed zero rands rest s e = let same : [] ≡ s = cc in rw (← same) (refl, tt)
challenge_chars-allowed (suc n) rands rest s e = elim (Option-cases (challenge_char rands)) [
  | inl e₁ ↦ absurd (cc (rw (e₁, challenge_chars) at e))
  | inr ((c, r), e₁) ↦ elim (Option-cases (challenge_chars n r)) [
    | inl e₂ ↦ absurd (cc (rw (e₁, challenge_chars, e₂) at e))
    | inr ((t, r'), e₂) ↦
        let same : c ∷ t ≡ s = ground arith in
        let first = challenge_char-allowed rands r c e₁ in
        let others = challenge_chars-allowed n r r' t e₂ in
        rw (← same) (ap suc others.0, (first.0, first.1, first.2, others.1))
  ]
]

build_challenge-IsChallenge :
    (rands rest : List ℕ) (s : Text) → build_challenge rands ≡ some (s, rest) → IsChallenge s
unfolding build_challenge
build_challenge-IsChallenge [] rest s e = cc
build_challenge-IsChallenge (rand ∷ rands) rest s e =
    let (size, allowed) = challenge_chars-allowed (8 + rand % 4) rands rest s e in
    record { long_enough = omega arith; fits = omega arith; allowed = allowed }

take_all : (n : ℕ) (s : Text) → length s ≤ n → take n s ≡ s
take_all zero [] h = refl
take_all zero (c ∷ s) h = absurd (omega arith)
take_all (suc n) [] h = refl
take_all (suc n) (c ∷ s) h = ap (◌∷◌ c) (take_all n s (omega arith))

getinfo_message-whole :
    (s : Text) → IsChallenge s → getinfo_message s ≡ out_of_band ++ codes "getinfo " ++ s
getinfo_message-whole s c = take_all 63 (out_of_band ++ codes "getinfo " ++ s) (omega arith)

-- What SendGetInfo leaves in the server entry and sends: a valid challenge, sent whole, which is
-- not obsolete yet. An old challenge is kept only if it is not obsolete.
pub record Challenged (server server' : Server) (force : Bool) (crt_time : ℕ) (msg : List ℕ)
    : Type 0 where
  pub valid : IsChallenge server'.challenge
  pub whole : msg ≡ out_of_band ++ codes "getinfo " ++ server'.challenge
  pub current : crt_time ≤ server'.challenge_timeout
  pub renewed :
      needs_challenge server force crt_time ≡ true → server'.challenge_timeout ≡ crt_time + 2
  pub kept : needs_challenge server force crt_time ≡ false → server' ≡ server

-- SendGetInfo sends a valid challenge, if the server's challenge is valid where it is kept.
pub send_get_info-Challenged :
    (server server' : Server) (force : Bool) (crt_time : ℕ) (rands msg : List ℕ)
    → (needs_challenge server force crt_time ≡ false → IsChallenge server.challenge)
    → send_get_info server force crt_time rands ≡ some (server', msg)
    → Challenged server server' force crt_time msg
unfolding send_get_info
send_get_info-Challenged server server' force crt_time rands msg old e =
    elim (Bool-cases (needs_challenge server force crt_time)) [
      | inr keep ↦
          let same : server' ≡ server = ground arith in
          let sent : msg ≡ getinfo_message server.challenge = ground arith in
          record {
            valid = rw same (old keep);
            whole = sent ∙ getinfo_message-whole server.challenge (old keep) ∙ rw same;
            current = rw same (ground arith);
            renewed = λ h. absurd (cc);
            kept = λ h. same;
          }
      | inl new ↦ elim (Option-cases (build_challenge rands)) [
        | inl short ↦ absurd (ground arith)
        | inr ((challenge, rest), built) ↦
            let good = build_challenge-IsChallenge rands rest challenge built in
            let whole : take 11 challenge ≡ challenge = take_all 11 challenge good.fits in
            let made : Server = record server {
              challenge_timeout = crt_time + 2;
              challenge = take 11 challenge;
            } in
            let same : server' ≡ made = ground arith in
            let sent : msg ≡ getinfo_message (take 11 challenge) = ground arith in
            record {
              valid = rw (same, whole) good;
              whole =
                  sent
                  ∙ ap getinfo_message whole
                  ∙ getinfo_message-whole challenge good
                  ∙ rw (same, whole);
              current = rw same (omega arith);
              renewed = λ h. rw same;
              kept = λ h. absurd (cc);
            }
      ]
    ]

-- The random numbers give allowed characters.
abbrev pub AllUsable : List ℕ → Type 0
AllUsable [] = Unit {0}
AllUsable (rand ∷ rands) = (is_forbidden (33 + rand % 94) ≡ false) × AllUsable rands

challenge_chars-some :
    (n : ℕ) (rands : List ℕ)
    → AllUsable rands
    → n ≤ length rands
    → (r : Text × List ℕ) × (challenge_chars n rands ≡ some r)
unfolding challenge_chars challenge_char
challenge_chars-some zero rands a h = (([], rands), refl)
challenge_chars-some (suc n) [] a h = absurd (omega arith)
challenge_chars-some (suc n) (rand ∷ rands) (good, a) h =
    let ((s, rest), run) = challenge_chars-some n rands a (omega arith) in
    (((33 + rand % 94) ∷ s, rest), rw (good, run, challenge_chars) refl)

pub send_get_info-some :
    (server : Server) (force : Bool) (crt_time rand : ℕ) (rands : List ℕ)
    → AllUsable rands
    → 11 ≤ length rands
    → (r : Server × List ℕ) × (send_get_info server force crt_time (rand ∷ rands) ≡ some r)
unfolding send_get_info build_challenge
send_get_info-some server force crt_time rand rands a h =
    elim (Bool-cases (needs_challenge server force crt_time)) [
      | inr keep ↦ ((server, getinfo_message server.challenge), rw (keep) refl)
      | inl renew ↦
          let ((s, rest), run) = challenge_chars-some (8 + rand % 4) rands a (omega arith) in
          let server' : Server = record server {
            challenge_timeout = crt_time + 2;
            challenge = take 11 s;
          } in
          ((server', getinfo_message (take 11 s)), rw (renew, run) refl)
    ]
