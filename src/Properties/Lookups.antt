-- ===== src/Properties/Lookups.antt =====
-- src/games.c: what the message handlers ask of the game properties.
use dpmaster_x.Prelude.{Bool, true, false, Option, none, some, List, [], ◌∷◌, if◌then◌else◌, ℤ}
use dpmaster_x.Text.{Text, str_eq}
use dpmaster_x.Properties.{
  GameOptions, no_options, GameProperties, Registry, find_name, get_anonymous, assoc_at,
  find_anonymous,
}

-- Game_GetNameByProtocol: the name and the options of the game. A game that owns a protocol
-- number is in the list.
unfoldable pub get_name_by_protocol : Registry → ℤ → Option (Text × GameOptions)
get_name_by_protocol r protocol =
    let found = find_anonymous r.protocols protocol in
    if found.0
    then (elim (find_name (assoc_at r.protocols found.1).1 r.properties) [
      | none ↦ none
      | some props ↦ some (props.name, props.options)
    ])
    else none

abbrev tag_is : Option Text → Text → Bool
tag_is none heartbeat_tag = false
tag_is (some tag) heartbeat_tag = str_eq heartbeat_tag tag

-- Game_GetPropertiesByHeartbeat: the properties, and whether the tag is the flatline tag.
unfoldable pub get_properties_by_heartbeat :
    List GameProperties → Text → Option GameProperties × Bool
get_properties_by_heartbeat [] heartbeat_tag = (none, false)
get_properties_by_heartbeat (props ∷ rest) heartbeat_tag =
    let others = get_properties_by_heartbeat rest heartbeat_tag in
    if tag_is props.alive_tag heartbeat_tag
    then (some props, false)
    else if tag_is props.dead_tag heartbeat_tag
    then (some props, true)
    else others

-- Game_GetOptions
unfoldable pub get_options : Registry → Text → GameOptions
get_options r game = elim (get_anonymous r game false).1 [
  | none ↦ no_options
  | some props ↦ props.options
]

-- Game_GetProperties
unfoldable pub get_properties : Registry → Text → Option GameProperties
get_properties r game = (get_anonymous r game false).1
