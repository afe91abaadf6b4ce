-- ===== src/Messages/GetServers/Browse.antt =====
-- src/messages.c: the packets that the loop of HandleGetServers leads to.
use dpmaster_x.Prelude.{
  ℕ, zero, suc, ◌≡◌, ◌⊎◌, inl, inr, refl, ap, ◌∙◌, Bool, false, Option, none, some, ℤ, subst, List,
  get_or, OnSome-at,
}
use dpmaster_x.Text.{Text}
use dpmaster_x.Games.{Policy}
use dpmaster_x.Servers.{Server, Servers, server_at, cleared}
use dpmaster_x.Servers.Iterate.{get_next}
use dpmaster_x.Messages.Packet.{Output, add_server_entry}
use dpmaster_x.Messages.Query.{Options}
use dpmaster_x.Messages.GetServers.{is_void, Round, go_on, rejected, visit, browse, Browsed}
use dpmaster_x.Servers.Slots.{IsWellFormed, is_unused_at}
use dpmaster_x.Servers.Slots.Part.{IsPart, get_next-IsPart}
use dpmaster_x.Servers.Slots.Iteration.{IsIterating}
use dpmaster_x.Servers.Slots.Yield.{IsYield, get_next-IsNext}
use dpmaster_x.Messages.GetServers.Filter.{IsListed, IsKept, IsOutcome, visit-IsOutcome}

-- A server that is in use in a list.
abbrev pub IsKnown : List Server → Server → Type 0
IsKnown servers sv = (j : ℕ) × (is_unused_at servers j ≡ false) × (sv ≡ get_or servers j cleared)

-- The packets grow by entries of servers of a list that the client asked for, of one game if it
-- named one.
pub data IsBuilt (before : List Server) (extended : Bool) (o : Options) (protocol : ℤ)
    (gamename : Text) : Output → Output → Type 0 where
  done : (out : Output) → IsBuilt before extended o protocol gamename out out
  entry :
      (out out' : Output) (sv : Server) (game : Text)
      → (is_void gamename ≡ false → game ≡ gamename)
      → IsKnown before sv
      → IsListed o protocol game sv
      → IsBuilt before extended o protocol gamename (add_server_entry extended sv out) out'
      → IsBuilt before extended o protocol gamename out out'

IsBuilt-kept :
    (before : List Server) (extended : Bool) (o : Options) (protocol : ℤ)
    (gamename gamename' : Text) (out out' : Output)
    → IsKept gamename gamename'
    → IsBuilt before extended o protocol gamename' out out'
    → IsBuilt before extended o protocol gamename out out'
unfolding IsKept
IsBuilt-kept before extended o protocol gamename gamename' _ _ k (done out) = done out
IsBuilt-kept before extended o protocol gamename gamename' _ _ k
      (entry out out' sv game same known listed rest) =
    entry out out' sv game (λ v. let e = k v in same (ap is_void e ∙ v) ∙ e) known listed
      (IsBuilt-kept before extended o protocol gamename gamename' (add_server_entry extended sv out)
        out' k rest)

-- What the loop returns: a well-formed list, and packets with such entries, unless the handler returned.
unfoldable pub IsBrowsed :
    List Server → Bool → ℤ → Options → Text → Output → Option Browsed → Type 0
IsBrowsed before extended protocol o gamename out result =
    (b : Browsed) × (result ≡ some b)
    × IsWellFormed b.after
    × ((b.output ≡ none)
        ⊎ ((out' : Output) × (b.output ≡ some out')
            × IsBuilt before extended o protocol gamename out out'))

step-IsBrowsed :
    (before : List Server) (extended : Bool) (protocol : ℤ) (o : Options)
    (gamename gamename' : Text) (out out1 : Output) (sv : Server) (result : Option Browsed)
    → IsKnown before sv
    → IsKept gamename gamename'
    → (out1 ≡ out) ⊎ ((out1 ≡ add_server_entry extended sv out) × IsListed o protocol gamename' sv)
    → IsBrowsed before extended protocol o gamename' out1 result
    → IsBrowsed before extended protocol o gamename out result
unfolding IsBrowsed IsKept
step-IsBrowsed before extended protocol o gamename gamename' out out1 sv result known k grown
      (b, e, w, inl returned) =
    (b, e, w, inl returned)
step-IsBrowsed before extended protocol o gamename gamename' out out1 sv result known k (inl same)
      (b, e, w, inr (out', f, built)) =
    (
      b,
      e,
      w,
      inr (
        out',
        f,
        subst (λ x. IsBuilt before extended o protocol gamename x out') same
            (IsBuilt-kept before extended o protocol gamename gamename' out1 out' k built),
      ),
    )
step-IsBrowsed before extended protocol o gamename gamename' out out1 sv result known k
      (inr (grown, listed)) (b, e, w, inr (out', f, built)) =
    (
      b,
      e,
      w,
      inr (
        out',
        f,
        entry out out' sv gamename' k known listed (
            subst (λ x. IsBuilt before extended o protocol gamename x out') grown
              (IsBuilt-kept before extended o protocol gamename gamename' out1 out' k built)),
      ),
    )

-- The loop, with a list of which the servers in use are a part.
browse_from-IsBrowsed :
    (before : List Server) (rounds : ℕ) (policy : Policy) (extended : Bool) (protocol : ℤ)
    (o : Options) (crt_time : ℕ) (gamename : Text) (out : Output) (s : Servers) (first : Option ℕ)
    → IsWellFormed s
    → IsPart s.servers before
    → ((i : ℕ) → first ≡ some i → IsIterating s × (is_unused_at s.servers i ≡ false))
    → IsBrowsed before extended protocol o gamename out
        (browse rounds policy extended protocol o crt_time gamename out s first)
unfolding browse IsBrowsed IsOutcome
browse_from-IsBrowsed before rounds policy extended protocol o crt_time gamename out s none w part
      it =
    (record { after = s; output = some out }, refl, w, inr (out, refl, done out))
browse_from-IsBrowsed before zero policy extended protocol o crt_time gamename out s (some i) w part
      it =
    (record { after = s; output = some out }, refl, w, inr (out, refl, done out))
browse_from-IsBrowsed before (suc rounds) policy extended protocol o crt_time gamename out s
      (some i) w part it =
    go (visit policy extended protocol o gamename out (server_at s i))
      (visit-IsOutcome policy extended protocol o gamename out (server_at s i))
      (λ gamename' out1 r y part'.
        browse_from-IsBrowsed before rounds policy extended protocol o crt_time gamename' out1 r.0
          r.1 y.kept part' (λ i e. ((y.found i e).3, (y.found i e).1)))
  where
    go :
        (r : Round)
        → IsOutcome extended protocol o gamename out (server_at s i) r
        → ((gamename' : Text) (out1 : Output) (r : Servers × Option ℕ)
            → IsYield crt_time r
            → IsPart r.0.servers before
            → IsBrowsed before extended protocol o gamename' out1
                (browse rounds policy extended protocol o crt_time gamename' out1 r.0 r.1))
        → IsBrowsed before extended protocol o gamename out (elim r [
          | rejected ↦ some (record { after = s; output = none })
          | go_on gamename' out' ↦ elim (get_next s crt_time) [
            | none ↦ none
            | some (s', next) ↦
                browse rounds policy extended protocol o crt_time gamename' out' s' next
          ]
        ])
    go rejected u more = (record { after = s; output = none }, refl, w, inl refl)
    go (go_on gamename' out1) (k, grown) more =
        let (r, run, y) = get_next-IsNext s crt_time w (it i refl).0 in
        rw (run) (
          step-IsBrowsed before extended protocol o gamename gamename' out out1 (server_at s i)
            (browse rounds policy extended protocol o crt_time gamename' out1 r.0 r.1)
            (i, (part i (it i refl).1).0, (part i (it i refl).1).1) k grown
            (more gamename' out1 r y.yield (
              OnSome-at (λ (r : Servers × Option ℕ). IsPart r.0.servers before)
                (get_next-IsPart s crt_time before part) run)))

-- From a well-formed list, with the first server, if there is one, in use and the indices of the
-- iteration in range, the loop of HandleGetServers ends with a well-formed list and, unless it
-- returns from the handler, with the packets it had plus entries of servers that are in use in
-- the list it began with, are initialised, have the protocol asked for, pass the filtering
-- options, and have the game asked for, if one was.
pub browse-IsBrowsed :
    (rounds : ℕ) (policy : Policy) (extended : Bool) (protocol : ℤ) (o : Options) (crt_time : ℕ)
    (gamename : Text) (out : Output) (s : Servers) (first : Option ℕ)
    → IsWellFormed s
    → ((i : ℕ) → first ≡ some i → IsIterating s × (is_unused_at s.servers i ≡ false))
    → IsBrowsed s.servers extended protocol o gamename out
        (browse rounds policy extended protocol o crt_time gamename out s first)
browse-IsBrowsed rounds policy extended protocol o crt_time gamename out s first w it =
    browse_from-IsBrowsed s.servers rounds policy extended protocol o crt_time gamename out s first
      w (λ j u. (u, refl)) it
