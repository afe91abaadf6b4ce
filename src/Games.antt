-- ===== src/Games.antt =====
-- src/games.c: the game policy. `game_names` is the list of its first `nb_game_names` entries;
-- it is NULL exactly as long as it is empty.
pub mod Search
pub mod Sorted
pub mod Insert
pub mod Declare
use Prim.Native.Nat.{Ordering}
use mathlib.Core.Bool.{xor}
use dpmaster_x.Prelude.{
  ℕ, zero, suc, ◌+◌, ◌-◌, ◌/◌, Bool, true, false, Option, none, some, List, [], ◌∷◌, ◌++◌,
  if◌then◌else◌, length, get_or, take, drop, ltb,
}
use dpmaster_x.Text.{Text, codes, strcmp, str_eq}

-- `cmdline_status_t`
pub data CmdlineStatus : Type 0 where
  ok show_help show_game_properties : CmdlineStatus
  invalid_opt not_enough_opt_params too_much_opt_params : CmdlineStatus
  invalid_opt_params not_enough_memory : CmdlineStatus

pub record Policy : Type 0 where
  pub game_names : List Text
  pub reject_when_known : Bool

-- The variables as they are initialised.
abbrev pub initial : Policy
initial = record { game_names = []; reject_when_known = true }

-- A binary search over the indices from `left` up to, and without, `end`, which is `right + 1`.
-- The order says how the entry at an index compares with what is looked for; the result is
-- whether it was found, and the index where it is or should be. Each round halves the interval,
-- so as many rounds as it has indices are enough.
unfoldable pub search_from : (ℕ → Ordering) → ℕ → ℕ → ℕ → Bool × ℕ
search_from order zero left end = (false, left)
search_from order (suc rounds) left end = elim (ltb left end) [
  | false ↦ (false, left)
  | true ↦
      let middle = (left + (end - 1)) / 2 in
      elim (order middle) [
        | Ordering.eq ↦ (true, middle)
        | Ordering.gt ↦ search_from order rounds left middle
        | Ordering.lt ↦ search_from order rounds (middle + 1) end
      ]
]

-- Game_Find
unfoldable pub find : List Text → Text → Bool × ℕ
find game_names game_name =
    let nb_game_names = length game_names in
    search_from (λ i. strcmp (get_or game_names i []) game_name) nb_game_names 0 nb_game_names

-- `memmove` of the entries from `index` on, and the write of the new one
abbrev pub insert_at {ℓ} : {A : Type ℓ} → ℕ → A → List A → List A
insert_at index x xs = take index xs ++ x ∷ drop index xs

-- The loop of Game_DeclarePolicy over `games`. `memory` says how many calls of `realloc` succeed.
unfoldable pub declare_games : ℕ → List Text → List Text → List Text × CmdlineStatus
declare_games memory names [] = (names, CmdlineStatus.ok)
declare_games memory names (game ∷ games) =
    let found = find names game in
    elim found.0 [
      | true ↦ declare_games memory names games
      | false ↦ elim memory [
        | zero ↦ (names, CmdlineStatus.not_enough_memory)
        | suc rest ↦ declare_games rest (insert_at found.1 game names) games
      ]
    ]

-- "accept" and "reject", as the new value of `reject_when_known`
unfoldable pub policy_of : Text → Option Bool
policy_of policy =
    if str_eq policy (codes "accept")
    then some false
    else if str_eq policy (codes "reject")
    then some true
    else none

-- `game_names == NULL`
abbrev pub is_unset : List Text → Bool
is_unset [] = true
is_unset (g ∷ gs) = false

-- Game_DeclarePolicy
unfoldable pub declare_policy : ℕ → Policy → Text → List Text → Policy × CmdlineStatus
declare_policy memory p policy games = elim (policy_of policy) [
  | none ↦ (p, CmdlineStatus.invalid_opt_params)
  | some new_reject ↦
      let declared = declare_games memory p.game_names games in
      if is_unset p.game_names
      then (record { game_names = declared.0; reject_when_known = new_reject }, declared.1)
      else if xor new_reject p.reject_when_known
      then (p, CmdlineStatus.invalid_opt_params)
      else (record p { game_names = declared.0 }, declared.1)
]

-- Game_IsAccepted
unfoldable pub is_accepted : Policy → Text → Bool
is_accepted p game_name = xor (find p.game_names game_name).0 p.reject_when_known
