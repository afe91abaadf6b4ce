-- ===== src/Properties.antt =====
-- src/games.c: the game properties. A `game_properties_t*` is the name of the game, which is the
-- key of its structure in the list; a structure is only added for a new name. `memory` counts the
-- allocations that still succeed. A result `none` is a call of `strcmp` on a null pointer.

pub mod Update
pub mod Lookups
pub mod Protocols
use Prim.Native.Nat.{Ordering}
use dpmaster_x.Prelude.{
  ℕ, zero, suc, Bool, true, false, not, ◌||◌, ◌&&◌, Option, none, some, List, [], ◌∷◌, ◌++◌,
  if◌then◌else◌, length, get_or, set, take, drop, ℤ, pos, eqb_ℤ, ltb_ℤ, ◌==◌,
}
use dpmaster_x.Text.{Text, codes, str_eq, has_char, before_char, after_char, tokens, strtol, to_int}
use dpmaster_x.Games.{CmdlineStatus, search_from, insert_at}
use dpmaster_x.Games.CmdlineStatus.{ok, invalid_opt_params, not_enough_memory}

-- `game_options_t`, bit by bit
pub record GameOptions : Type 0 where
  pub send_empty_servers : Bool
  pub send_full_servers : Bool

abbrev pub no_options : GameOptions
no_options = record { send_empty_servers = false; send_full_servers = false }

-- `heartbeat_type_t`
pub data HeartbeatType : Type 0 where
  alive dead : HeartbeatType

-- `game_properties_t`, with the two heartbeat tags by their type
pub record GameProperties : Type 0 where
  pub name : Text
  pub options : GameOptions
  pub alive_tag : Option Text
  pub dead_tag : Option Text

pub record Registry : Type 0 where
  pub properties : List GameProperties
  pub protocols : List (ℤ × Text)
  pub memory : ℕ

abbrev pub empty : ℕ → Registry
empty memory = record { properties = []; protocols = []; memory = memory }

-- An allocation.
abbrev pub alloc : Registry → Option Registry
alloc r = elim r.memory [ zero ↦ none | suc m ↦ some (record r { memory = m }) ]

-- The walk over the list.
unfoldable pub find_name : Text → List GameProperties → Option GameProperties
find_name game [] = none
find_name game (props ∷ rest) = if str_eq game props.name then some props else find_name game rest

-- A write through a pointer to the structure of a game.
unfoldable pub write_name : Text → GameProperties → List GameProperties → List GameProperties
write_name game new [] = []
write_name game new (props ∷ rest) =
    if str_eq game props.name then new ∷ rest else props ∷ write_name game new rest

is_void : Text → Bool
is_void [] = true
is_void (c ∷ s) = false

-- Game_GetAnonymous: the list may get a new structure in front.
unfoldable pub get_anonymous : Registry → Text → Bool → Registry × Option GameProperties
unfolding is_void
get_anonymous r game creation_allowed = elim (find_name game r.properties) [
  | some props ↦ (r, some props)
  | none ↦
      if creation_allowed && (not (is_void game) && not (has_char b' ' game))
      then (elim (alloc r) [
        | none ↦ (r, none)
        | some r' ↦
            let props : GameProperties = record {
              name = game;
              options = no_options;
              alive_tag = none;
              dead_tag = none;
            } in
            (record r' { properties = props ∷ r.properties }, some props)
      ])
      else (r, none)
]

-- How a protocol number compares with another one.
unfoldable pub order_ℤ : ℤ → ℤ → Ordering
order_ℤ a b = if eqb_ℤ a b then Ordering.eq else if ltb_ℤ b a then Ordering.gt else Ordering.lt

abbrev pub assoc_at : List (ℤ × Text) → ℕ → ℤ × Text
assoc_at protocols i = get_or protocols i (pos 0, [])

-- Game_FindAnonymous
unfoldable pub find_anonymous : List (ℤ × Text) → ℤ → Bool × ℕ
find_anonymous protocols protocol =
    let nb = length protocols in
    search_from (λ i. order_ℤ (assoc_at protocols i).0 protocol) nb 0 nb

-- Game_RemoveAllProtocols
unfoldable pub remove_all_protocols : List (ℤ × Text) → Text → List (ℤ × Text)
remove_all_protocols [] game = []
remove_all_protocols ((protocol, owner) ∷ rest) game =
    let kept = remove_all_protocols rest game in
    if str_eq owner game then kept else (protocol, owner) ∷ kept

-- Game_AddProtocol
unfoldable pub add_protocol : Registry → Text → ℤ → Registry × CmdlineStatus
add_protocol r game protocol =
    let found = find_anonymous r.protocols protocol in
    let index = found.1 in
    if found.0
    then (record r { protocols = set r.protocols index (protocol, game) }, ok)
    else (elim (alloc r) [
      | none ↦ (r, not_enough_memory)
      | some r' ↦ (record r' { protocols = insert_at index (protocol, game) r.protocols }, ok)
    ])

-- Game_RemoveProtocol
unfoldable pub remove_protocol : Registry → Text → ℤ → Registry × CmdlineStatus
remove_protocol r game protocol =
    let found = find_anonymous r.protocols protocol in
    let index = found.1 in
    if found.0
    then (if str_eq (assoc_at r.protocols index).1 game
        then (record r { protocols = take index r.protocols ++ drop (suc index) r.protocols }, ok)
        else (r, invalid_opt_params))
    else (r, ok)

abbrev pub tag_of : GameProperties → HeartbeatType → Option Text
tag_of props alive = props.alive_tag
tag_of props dead = props.dead_tag

abbrev pub set_tag : GameProperties → HeartbeatType → Option Text → GameProperties
set_tag props alive tag = record props { alive_tag = tag }
set_tag props dead tag = record props { dead_tag = tag }

-- Game_RemoveHeartbeat
unfoldable pub remove_heartbeat : GameProperties → HeartbeatType → GameProperties
remove_heartbeat props hb_type = set_tag props hb_type none

-- HEARTBEAT_DARKPLACES
abbrev pub heartbeat_dark_places : Text
heartbeat_dark_places = codes "DarkPlaces"

-- Game_UpdateHeartbeat, on the structure and the memory that is left
unfoldable pub update_heartbeat :
    ℕ → GameProperties → HeartbeatType → Text → Bool → Option (ℕ × GameProperties × CmdlineStatus)
unfolding remove_heartbeat
update_heartbeat memory props hb_type value true = elim (tag_of props hb_type) [
  | none ↦ none
  | some tag ↦
      some (memory, (if str_eq tag value then remove_heartbeat props hb_type else props), ok)
]
update_heartbeat memory props hb_type value false =
    if str_eq value heartbeat_dark_places
    then some (memory, props, invalid_opt_params)
    else (elim (tag_of props hb_type) [
      | some tag ↦ some (memory, props, invalid_opt_params)
      | none ↦ elim memory [
        | zero ↦ some (zero, props, not_enough_memory)
        | suc m ↦ some (m, set_tag props hb_type (some value), ok)
      ]
    ])

-- Game_UpdateOption
unfoldable pub update_option : GameProperties → Text → Bool → GameProperties × CmdlineStatus
update_option props option_name remove =
    if str_eq (codes "send-empty-servers") option_name
    then (
      record props {
        options = record {
          send_empty_servers = not remove;
          send_full_servers = props.options.send_full_servers;
        };
      },
      ok,
    )
    else if str_eq (codes "send-full-servers") option_name
    then (
      record props {
        options = record {
          send_empty_servers = props.options.send_empty_servers;
          send_full_servers = not remove;
        };
      },
      ok,
    )
    else (props, invalid_opt_params)
