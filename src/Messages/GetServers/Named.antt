-- ===== src/Messages/GetServers/Named.antt =====
-- src/messages.c: the answer to a getservers query that names a game.
use dpmaster_x.Prelude.{
  ℕ, zero, suc, ◌≡◌, refl, sym, ap, ◌∙◌, inl, inr, Bool, false, not, ◌&&◌, ◌||◌, Option, none, some,
  List, [], ◌∷◌, ℤ, eqb_ℤ, arith, get_or, if◌then◌else◌, Bool-cases, OnSome-at, subst,
}
use dpmaster_x.Text.{Text, str_eq}
use dpmaster_x.Address.{is_ipv4}
use dpmaster_x.Games.{Policy}
use dpmaster_x.Servers.{Server, Servers, cleared, server_at}
use dpmaster_x.Servers.Iterate.{get_next}
use dpmaster_x.Servers.Slots.{IsWellFormed, IsCalmFrom}
use dpmaster_x.Servers.Slots.Iteration.{IsIterating}
use dpmaster_x.Servers.Slots.Yield.{IsYield, get_next-IsNext}
use dpmaster_x.Servers.Slots.Pending.{IsAccounted, get_next-IsAccounted}
use dpmaster_x.Servers.Slots.Visits.{visits, calm_after}
use dpmaster_x.Messages.Packet.{Output, add_server_entry}
use dpmaster_x.Messages.Packet.Layout.{add_all}
use dpmaster_x.Messages.Query.{Options}
use dpmaster_x.Messages.GetServers.{
  is_initialized, is_empty, is_full, is_skipped, is_void, visit, go_on, browse, Browsed,
}

-- The server passes the options, and has the game type, if one was asked for, and the game.
abbrev pub passes : Options → Text → Server → Bool
passes o gamename sv =
    (o.opt_empty || not (is_empty sv.state))
    && ((o.opt_full || not (is_full sv.state))
        && ((if is_ipv4 sv.address then o.opt_ipv4 else o.opt_ipv6)
            && ((not o.opt_gametype || str_eq o.gametype sv.gametype)
                && str_eq gamename sv.gamename)))

passes-is_skipped :
    (o : Options) (gamename : Text) (sv : Server)
    → passes o gamename sv ≡ not (is_skipped o gamename sv)
unfolding is_skipped
passes-is_skipped o gamename sv = ground arith

-- The server is validated and has the protocol, and passes.
abbrev pub is_wanted : ℤ → Options → Text → Server → Bool
is_wanted protocol o gamename sv =
    is_initialized sv.state && (eqb_ℤ sv.protocol protocol && passes o gamename sv)

-- The servers of some slots that are wanted.
unfoldable pub selected : ℤ → Options → Text → List Server → List ℕ → List Server
selected protocol o gamename servers [] = []
selected protocol o gamename servers (i ∷ slots) =
    let rest = selected protocol o gamename servers slots in
    if is_wanted protocol o gamename (get_or servers i cleared)
    then get_or servers i cleared ∷ rest
    else rest

module _ (policy : Policy) (extended : Bool) (protocol : ℤ) (o : Options) (crt_time : ℕ)
    (gamename : Text) (named : is_void gamename ≡ false) where
  -- The output with the server, if it is wanted.
  abbrev added : Server → Output → Output
  added sv out = if is_wanted protocol o gamename sv then add_server_entry extended sv out else out

  visit-named :
      (out : Output) (sv : Server)
      → visit policy extended protocol o gamename out sv ≡ go_on gamename (added sv out)
  unfolding visit
  visit-named out sv =
      rw (named, visit)
        (elim (Bool-cases (is_initialized sv.state)) [
          | inr i ↦ rw (i) refl
          | inl i ↦ elim (Bool-cases (eqb_ℤ sv.protocol protocol)) [
            | inr p ↦ rw (i, p) refl
            | inl p ↦ elim (Bool-cases (is_skipped o gamename sv)) [
              | inl k ↦ rw (i, p, k) (chosen (passes-is_skipped o gamename sv ∙ ap not k))
              | inr k ↦ rw (i, p, k) (chosen (passes-is_skipped o gamename sv ∙ ap not k))
            ]
          ]
        ])
    where
      chosen :
          {b : Bool}
          → passes o gamename sv ≡ b
          → go_on gamename (if b then add_server_entry extended sv out else out)
            ≡ go_on gamename
                (if passes o gamename sv then add_server_entry extended sv out else out)
      chosen e =
          ap (λ b. go_on gamename (if b then add_server_entry extended sv out else out)) (sym e)

  -- The loop ends with the packets to which these servers were added.
  abbrev pub Adds : List Server → Output → Option Browsed → Type 0
  Adds svs out result =
      (s : Servers) × (result
        ≡ some (record { after = s; output = some (add_all extended svs out) }))

  add_all-selected :
      (servers : List Server) (i : ℕ) (slots : List ℕ) (out : Output)
      → add_all extended
          (selected protocol o gamename servers slots)
          (added (get_or servers i cleared) out)
        ≡ add_all extended (selected protocol o gamename servers (i ∷ slots)) out
  unfolding selected add_all
  add_all-selected servers i slots out =
      elim (Bool-cases (is_wanted protocol o gamename (get_or servers i cleared))) [
        | inl wanted ↦ rw (wanted) refl
        | inr other ↦ rw (other) refl
      ]

  -- A round of the loop, at a server of the list.
  browse-named :
      (rounds : ℕ) (out : Output) (s : Servers) (i : ℕ)
      → browse (suc rounds) policy extended protocol o crt_time gamename out s (some i)
        ≡ (elim (get_next s crt_time) [
          | none ↦ none
          | some (s', next) ↦
              browse rounds policy extended protocol o crt_time gamename
                (added (server_at s i) out)
                s'
                next
        ])
  unfolding browse
  browse-named rounds out s i = rw (visit-named out (server_at s i), browse) refl

  -- The server of the round comes first.
  Adds-first :
      (servers : List Server) (i : ℕ) (slots : List ℕ) (out : Output) (result : Option Browsed)
      → Adds
          (selected protocol o gamename servers slots)
          (added (get_or servers i cleared) out)
          result
      → Adds (selected protocol o gamename servers (i ∷ slots)) out result
  Adds-first servers i slots out result (s, e) = (
    s,
    e
        ∙ ap (λ out. some (record { after = s; output = some out }))
            (add_all-selected servers i slots out),
  )

  pub browse-over :
      (rounds : ℕ) (out : Output) (s : Servers)
      → Adds [] out (browse rounds policy extended protocol o crt_time gamename out s none)
  unfolding browse add_all
  browse-over zero out s = (s, refl)
  browse-over (suc rounds) out s = (s, refl)

  browse-none_left :
      (out : Output) (s : Servers) (next : Option ℕ)
      → Adds [] out (browse 0 policy extended protocol o crt_time gamename out s next)
  unfolding browse add_all
  browse-none_left out s none = (s, refl)
  browse-none_left out s (some i) = (s, refl)

  pub browse-visits :
      (rounds : ℕ) (out : Output) (s : Servers) (i : ℕ)
      → IsWellFormed s
      → IsIterating s
      → IsCalmFrom s 0 crt_time
      → Adds
          (selected protocol o gamename s.servers (i ∷ visits rounds s crt_time))
          out
          (browse (suc rounds) policy extended protocol o crt_time gamename out s (some i))
  unfolding visits selected
  browse-visits zero out s i w it calm =
      let (r, run, n) = get_next-IsNext s crt_time w it in
      let y = n.yield in
      rw (browse-named 0 out s i, run)
        (Adds-first s.servers i [] out _ (browse-none_left (added (server_at s i) out) r.0 r.1))
  browse-visits (suc rounds) out s i w it calm =
      let (r, run, n) = get_next-IsNext s crt_time w it in
      let y = n.yield in
      after r run y (OnSome-at (IsAccounted s) (get_next-IsAccounted s crt_time w it calm) run)
        (λ out s i w it calm. browse-visits rounds out s i w it calm)
    where
      after :
          (r : Servers × Option ℕ)
          → get_next s crt_time ≡ some r
          → IsYield crt_time r
          → IsAccounted s r
          → ((out : Output) (s : Servers) (i : ℕ)
              → IsWellFormed s
              → IsIterating s
              → IsCalmFrom s 0 crt_time
              → Adds
                  (selected protocol o gamename s.servers (i ∷ visits rounds s crt_time))
                  out
                  (browse (suc rounds) policy extended protocol o crt_time gamename out s (some i)))
          → Adds (selected protocol o gamename s.servers (i ∷ visits (suc rounds) s crt_time)) out (
              browse (suc (suc rounds)) policy extended protocol o crt_time gamename out s (some i))
      after (s', none) run y a rest =
          rw (browse-named (suc rounds) out s i, run, visits)
            (Adds-first s.servers i [] out _
              (browse-over (suc rounds) (added (server_at s i) out) s'))
      after (s', some j) run y a rest =
          rw (browse-named (suc rounds) out s i, run, visits)
            (Adds-first s.servers i (j ∷ visits rounds s' crt_time) out _ (
              subst
                (λ servers.
                  Adds (selected protocol o gamename servers (j ∷ visits rounds s' crt_time))
                    (added (server_at s i) out)
                    (browse (suc rounds) policy extended protocol o crt_time gamename
                      (added (server_at s i) out) s' (some j)))
                a.0
                (rest (added (server_at s i) out) s' j y.kept (y.found j refl).3
                  (calm_after s s' crt_time a.0 calm))))
