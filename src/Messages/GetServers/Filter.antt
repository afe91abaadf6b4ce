-- ===== src/Messages/GetServers/Filter.antt =====
-- src/messages.c: which servers HandleGetServers lists.
use Prim.{tt}
use dpmaster_x.Prelude.{
  ◌≡◌, ◌⊎◌, inl, inr, refl, Bool, true, false, not, ◌||◌, ◌&&◌, if◌then◌else◌, take, ℤ, eqb_ℤ,
  is_some, arith, Bool-cases,
}
use dpmaster_x.Text.{Text}
use dpmaster_x.Text.Order.{str_eq_iff}
use dpmaster_x.Address.{is_ipv4}
use dpmaster_x.Games.{Policy, is_accepted}
use dpmaster_x.Servers.{Server}
use dpmaster_x.Messages.Packet.{Output, add_server_entry}
use dpmaster_x.Messages.Query.{Options}
use dpmaster_x.Messages.GetServers.{
  is_initialized, is_empty, is_full, is_void, is_skipped, Round, go_on, rejected, visit,
}

-- What the client asked for: the options, the protocol and the game of a server.
pub record IsListed (o : Options) (protocol : ℤ) (gamename : Text) (sv : Server) : Type 0 where
  pub initialized : is_initialized sv.state ≡ true
  pub same_protocol : eqb_ℤ sv.protocol protocol ≡ true
  pub game : gamename ≡ sv.gamename
  pub not_empty : o.opt_empty ≡ false → is_empty sv.state ≡ false
  pub not_full : o.opt_full ≡ false → is_full sv.state ≡ false
  pub not_ipv4 : o.opt_ipv4 ≡ false → is_ipv4 sv.address ≡ false
  pub not_ipv6 : o.opt_ipv6 ≡ false → is_ipv4 sv.address ≡ true
  pub gametype : o.opt_gametype ≡ true → o.gametype ≡ sv.gametype

is_skipped-IsListed :
    (o : Options) (protocol : ℤ) (gamename : Text) (sv : Server)
    → is_initialized sv.state ≡ true
    → eqb_ℤ sv.protocol protocol ≡ true
    → is_skipped o gamename sv ≡ false
    → IsListed o protocol gamename sv
unfolding is_skipped
is_skipped-IsListed o protocol gamename sv i p h = record {
  initialized = i;
  same_protocol = p;
  game = (str_eq_iff gamename sv.gamename).0 (ground (arith, h));
  not_empty = λ e. ground (arith, e, h);
  not_full = λ e. ground (arith, e, h);
  not_ipv4 = λ e. ground (arith, e, h);
  not_ipv6 = λ e. ground (arith, e, h);
  gametype = λ e. (str_eq_iff o.gametype sv.gametype).0 (ground (arith, e, h));
}

-- The game name that the loop goes on with after a server.
unfoldable pub IsKept : Text → Text → Type 0
IsKept gamename gamename' = is_void gamename ≡ false → gamename' ≡ gamename

unfoldable pub IsOutcome : Bool → ℤ → Options → Text → Output → Server → Round → Type 0
unfolding IsKept
IsOutcome extended protocol o gamename out sv rejected = Unit
IsOutcome extended protocol o gamename out sv (go_on gamename' out') =
    IsKept gamename gamename'
    × ((out' ≡ out)
        ⊎ ((out' ≡ add_server_entry extended sv out) × IsListed o protocol gamename' sv))

listed-IsOutcome :
    (extended : Bool) (protocol : ℤ) (o : Options) (gamename gamename' : Text) (out : Output)
    (sv : Server)
    → is_initialized sv.state ≡ true
    → eqb_ℤ sv.protocol protocol ≡ true
    → IsKept gamename gamename'
    → IsOutcome extended protocol o gamename out sv (
        if is_skipped o gamename' sv
        then go_on gamename' out
        else go_on gamename' (add_server_entry extended sv out))
unfolding IsOutcome
listed-IsOutcome extended protocol o gamename gamename' out sv i p k =
    elim (Bool-cases (is_skipped o gamename' sv)) [
      | inl skipped ↦ rw (skipped) (k, inl refl)
      | inr listed ↦
          rw (listed) (k, inr (refl, is_skipped-IsListed o protocol gamename' sv i p listed))
    ]

pub visit-IsOutcome :
    (policy : Policy) (extended : Bool) (protocol : ℤ) (o : Options) (gamename : Text)
    (out : Output) (sv : Server)
    → IsOutcome extended protocol o gamename out sv
        (visit policy extended protocol o gamename out sv)
unfolding visit IsOutcome IsKept
visit-IsOutcome policy extended protocol o gamename out sv =
    elim (Bool-cases (not (is_initialized sv.state) || not (eqb_ℤ sv.protocol protocol))) [
      | inl other ↦ rw (other, visit) ((λ v. refl), inl refl)
      | inr asked ↦ elim (Bool-cases (is_void gamename && is_some sv.anon_properties)) [
        | inr plain ↦
            rw (asked, plain, visit)
              (listed-IsOutcome extended protocol o gamename gamename out sv (ground (arith, asked))
                (ground (arith, asked)) (λ v. refl))
        | inl adopts ↦ elim (Bool-cases (is_accepted policy (take 63 sv.gamename))) [
          | inl accepted ↦
              rw (asked, adopts, accepted, visit)
                (listed-IsOutcome extended protocol o gamename (take 63 sv.gamename) out sv
                  (ground (arith, asked)) (ground (arith, asked)) (λ v. ground (arith, v, adopts)))
          | inr refused ↦ rw (asked, adopts, refused, visit) tt
        ]
      ]
    ]
