-- ===== src/Tests/Policies.antt =====
-- The theorems on the game policy and the game properties at concrete lists.
use mathlib.Core.Bool.{xor}
use dpmaster_x.Prelude.{
  zero, suc, ◌≡◌, ◌||◌, refl, true, some, List, [], ◌∷◌, arith, ℤ, pos, eqb_ℤ, if◌then◌else◌,
}
use dpmaster_x.Text.{Text, codes, strcmp}
use dpmaster_x.Games.{
  find, initial, declare_policy, is_accepted, search_from, Policy, policy_of, declare_games,
  policy_of, declare_games,
}
use dpmaster_x.Games.Sorted.{IsSorted, listed, find-listed}
use dpmaster_x.Games.Declare.{declare_policy-is_accepted}
use dpmaster_x.Properties.{Registry, find_anonymous, order_ℤ, add_protocol}
use dpmaster_x.Properties.Protocols.{IsAscending, owner}
use dpmaster_x.Properties.Protocols.Add.{add_protocol-owner}

abbrev two_games : List Text
two_games = codes "Nexuiz" ∷ codes "Xonotic" ∷ []

two_games-IsSorted : IsSorted two_games
unfolding strcmp
two_games-IsSorted zero zero l h = absurd (omega arith)
two_games-IsSorted zero (suc zero) l h = refl
two_games-IsSorted (suc i) zero l h = elim l [ ]
two_games-IsSorted (suc i) (suc zero) l h = absurd (omega arith)
two_games-IsSorted i (suc (suc j)) l h = absurd (omega arith)

find-listed_example : (find two_games (codes "Xonotic")).0 ≡ listed (codes "Xonotic") two_games
find-listed_example = find-listed two_games (codes "Xonotic") two_games-IsSorted

abbrev rejecting : Policy
rejecting = record { game_names = two_games; reject_when_known = true }

declare_policy-is_accepted_example :
    IsSorted rejecting.game_names
    × ((g : Text)
        → is_accepted rejecting g
          ≡ xor (listed g [] || listed g (codes "Xonotic" ∷ codes "Nexuiz" ∷ [])) true)
unfolding policy_of strcmp declare_policy declare_games find search_from
declare_policy-is_accepted_example =
    declare_policy-is_accepted 2 initial rejecting (codes "reject")
      (codes "Xonotic" ∷ codes "Nexuiz" ∷ []) true (λ i j l h. absurd (omega arith)) refl refl

abbrev one_protocol : Registry
one_protocol = record {
  properties = [];
  protocols = (pos 68, codes "Quake3Arena") ∷ [];
  memory = 1;
}

abbrev two_protocols : Registry
two_protocols = record {
  properties = [];
  protocols = (pos 3, codes "Nexuiz") ∷ (pos 68, codes "Quake3Arena") ∷ [];
  memory = 0;
}

add_protocol-owner_example :
    IsAscending two_protocols.protocols
    × ((q : ℤ)
        → owner two_protocols.protocols q
          ≡ (if eqb_ℤ q (pos 3) then some (codes "Nexuiz") else owner one_protocol.protocols q))
unfolding add_protocol find_anonymous search_from order_ℤ
add_protocol-owner_example =
    add_protocol-owner one_protocol two_protocols (codes "Nexuiz") (pos 3)
      (λ i j l h. absurd (omega arith)) refl
