-- ===== src/Messages/GetServers/Rounds.antt =====
-- src/messages.c: the number of rounds of the loop of HandleGetServers.
use dpmaster_x.Prelude.{
  ℕ, zero, suc, ◌≤◌, ◌<◌, ◌≡◌, refl, ap, ◌∙◌, Bool, Option, none, some, ℤ, arith,
}
use dpmaster_x.Text.{Text}
use dpmaster_x.Games.{Policy}
use dpmaster_x.Servers.{Servers, server_at}
use dpmaster_x.Servers.Iterate.{get_next}
use dpmaster_x.Servers.Slots.{IsWellFormed}
use dpmaster_x.Servers.Slots.Iteration.{IsIterating, distance}
use dpmaster_x.Servers.Slots.Yield.{IsYield, get_next-IsNext}
use dpmaster_x.Servers.Slots.Rounds.{get_next-nearer, distance-le}
use dpmaster_x.Messages.Packet.{Output}
use dpmaster_x.Messages.Query.{Options}
use dpmaster_x.Messages.GetServers.{Round, go_on, rejected, visit, browse, Browsed}

module _ (policy : Policy) (extended : Bool) (protocol : ℤ) (o : Options) (crt_time : ℕ) where
  browse_enough :
      (rounds more : ℕ) (gamename : Text) (out : Output) (s : Servers) (first : Option ℕ)
      → rounds ≤ more
      → IsWellFormed s
      → ((i : ℕ) → first ≡ some i → IsIterating s × (distance s < rounds))
      → browse more policy extended protocol o crt_time gamename out s first
        ≡ browse rounds policy extended protocol o crt_time gamename out s first
  unfolding browse
  browse_enough rounds more gamename out s none h w near = refl
  browse_enough zero more gamename out s (some i) h w near = absurd (omega (arith, (near i refl).1))
  browse_enough (suc rounds) zero gamename out s (some i) h w near = absurd (omega arith)
  browse_enough (suc rounds) (suc more) gamename out s (some i) h w near =
      go (visit policy extended protocol o gamename out (server_at s i)) (λ gamename' out' r y run.
        browse_enough rounds more gamename' out' r.0 r.1 (omega arith) y.kept
          (λ j e. ((y.found j e).3, omega (arith, (near i refl).1, closer r j run e))))
    where
      closer :
          (r : Servers × Option ℕ) (j : ℕ)
          → get_next s crt_time ≡ some r
          → r.1 ≡ some j
          → distance r.0 < distance s
      closer r j run e =
          get_next-nearer s r.0 crt_time j w (near i refl).0 (run ∙ ap (λ x. some (r.0, x)) e)

      go :
          (r : Round)
          → ((gamename' : Text) (out' : Output) (r : Servers × Option ℕ)
              → IsYield crt_time r
              → get_next s crt_time ≡ some r
              → browse more policy extended protocol o crt_time gamename' out' r.0 r.1
                ≡ browse rounds policy extended protocol o crt_time gamename' out' r.0 r.1)
          → (elim r as (λ x. Option Browsed) [
            | rejected ↦ some (record { after = s; output = none })
            | go_on gamename' out' ↦ elim (get_next s crt_time) [
              | none ↦ none
              | some (s', next) ↦
                  browse more policy extended protocol o crt_time gamename' out' s' next
            ]
          ])
            ≡ (elim r as (λ x. Option Browsed) [
              | rejected ↦ some (record { after = s; output = none })
              | go_on gamename' out' ↦ elim (get_next s crt_time) [
                | none ↦ none
                | some (s', next) ↦
                    browse rounds policy extended protocol o crt_time gamename' out' s' next
              ]
            ])
      go rejected same = refl
      go (go_on gamename' out') same =
          let (r, run, n) = get_next-IsNext s crt_time w (near i refl).0 in
          let y = n.yield in rw (run) (same gamename' out' r y run)

  -- On a well-formed list, with the indices of the iteration in range if there is a first
  -- server, more rounds than one for each slot and one for the end do not change what the loop
  -- of HandleGetServers does.
  pub browse_rounds :
      (more : ℕ) (gamename : Text) (out : Output) (s : Servers) (first : Option ℕ)
      → suc s.max_nb_servers ≤ more
      → IsWellFormed s
      → ((i : ℕ) → first ≡ some i → IsIterating s)
      → browse more policy extended protocol o crt_time gamename out s first
        ≡ browse (suc s.max_nb_servers) policy extended protocol o crt_time gamename out s first
  browse_rounds more gamename out s first h w it =
      browse_enough (suc s.max_nb_servers) more gamename out s first h w
        (λ i e. (it i e, omega (arith, distance-le s w (it i e))))
