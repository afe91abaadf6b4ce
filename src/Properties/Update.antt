-- ===== src/Properties/Update.antt =====
-- src/games.c: updating the properties of a game from "name=value,…" strings.
use dpmaster_x.Prelude.{
  ℕ, Bool, true, false, Option, none, some, List, [], ◌∷◌, if◌then◌else◌, ◌==◌, ◌>>=◌,
}
use dpmaster_x.Text.{Text, codes, str_eq, has_char, before_char, after_char, tokens, strtol, to_int}
use dpmaster_x.Games.{CmdlineStatus}
use dpmaster_x.Games.CmdlineStatus.{ok, invalid_opt_params, not_enough_memory}
use dpmaster_x.Properties.{
  GameProperties, HeartbeatType, alive, dead, Registry, empty, alloc, no_options, find_name,
  write_name, get_anonymous, remove_all_protocols, add_protocol, remove_protocol, remove_heartbeat,
  update_heartbeat, update_option,
}

-- The properties that have a name.
pub data Property : Type 0 where
  protocols options heartbeat flatline : Property

unfoldable pub property_of : Text → Option Property
property_of prop_name =
    if str_eq prop_name (codes "protocols")
    then some protocols
    else if str_eq prop_name (codes "options")
    then some options
    else if str_eq prop_name (codes "heartbeat")
    then some heartbeat
    else if str_eq prop_name (codes "flatline")
    then some flatline
    else none

-- A write to the structure of the game that is being updated.
on_game : Registry → Text → (GameProperties → GameProperties) → Registry
on_game r game f = elim (find_name game r.properties) [
  | none ↦ r
  | some props ↦ record r { properties = write_name game (f props) r.properties }
]

-- The resets of Game_UpdateProperty.
unfoldable pub reset_property : Registry → Text → Property → Registry
unfolding on_game
reset_property r game protocols = record r { protocols = remove_all_protocols r.protocols game }
reset_property r game options = on_game r game (λ props. record props { options = no_options })
reset_property r game heartbeat = on_game r game (λ props. remove_heartbeat props alive)
reset_property r game flatline = on_game r game (λ props. remove_heartbeat props dead)

-- One value of "protocols"; anything behind the number is an error.
update_protocol : Registry → Text → Text → Bool → Registry × CmdlineStatus
update_protocol r game value remove_values = elim (strtol value) [
  | none ↦ (r, invalid_opt_params)
  | some (z, []) ↦
      if remove_values then remove_protocol r game (to_int z) else add_protocol r game (to_int z)
  | some (z, c ∷ rest) ↦ (r, invalid_opt_params)
]

update_tag :
    Registry
    → Text
    → GameProperties
    → HeartbeatType
    → Text
    → Bool
    → Option (Registry × CmdlineStatus)
update_tag r game props hb_type value remove_values =
    update_heartbeat r.memory props hb_type value remove_values >>= λ u.
    some (record r { properties = write_name game u.1 r.properties; memory = u.0 }, u.2)

-- The body of the loop of Game_UpdateProperty.
unfoldable pub update_value :
    Registry → Text → Property → Text → Bool → Option (Registry × CmdlineStatus)
unfolding update_protocol update_tag
update_value r game property value remove_values = elim (find_name game r.properties) [
  | none ↦ some (r, invalid_opt_params)
  | some props ↦ elim property [
    | protocols ↦ some (update_protocol r game value remove_values)
    | options ↦
        let u = update_option props value remove_values in
        some (record r { properties = write_name game u.0 r.properties }, u.1)
    | heartbeat ↦ update_tag r game props alive value remove_values
    | flatline ↦ update_tag r game props dead value remove_values
  ]
]

-- The loop, which ends at the first value that is refused.
pub update_values :
    Registry → Text → Property → List Text → Bool → Option (Registry × CmdlineStatus)
update_values r game property [] remove_values = some (r, ok)
update_values r game property (value ∷ values) remove_values =
    update_value r game property value remove_values >>= λ u. elim u.1 [
      | ok ↦ update_values u.0 game property values remove_values
      | refused ↦ some (u.0, refused)
    ]

-- Game_UpdateProperty
unfoldable pub update_property :
    Registry → Text → Text → Text → Bool → Bool → Option (Registry × CmdlineStatus)
unfolding update_values
update_property r game prop_name prop_value reset remove_values =
    if has_char b' ' prop_value
    then some (r, invalid_opt_params)
    else (elim (property_of prop_name) [
      | none ↦ (elim reset [
        | true ↦ some (r, invalid_opt_params)
        | false ↦ (elim (tokens b',' prop_value) [
          | [] ↦ some (r, ok)
          | v ∷ vs ↦ some (r, invalid_opt_params)
        ])
      ])
      | some property ↦
          let r' = if reset then reset_property r game property else r in
          update_values r' game property (tokens b',' prop_value) remove_values
    ])

-- The last byte, and the bytes before it.
unsnoc : ℕ → Text → Text × ℕ
unsnoc c [] = ([], c)
unsnoc c (d ∷ s) = let (front, last) = unsnoc d s in (c ∷ front, last)

-- "name+=values" adds, "name-=values" removes, and "name=values" replaces.
unfoldable pub apply_update : Registry → Text → Text → Option (Registry × CmdlineStatus)
unfolding unsnoc
apply_update r game prop = elim (after_char b'=' prop) [
  | none ↦ some (r, invalid_opt_params)
  | some values ↦ elim (before_char b'=' prop) [
    | [] ↦ some (r, invalid_opt_params)
    | c ∷ s ↦
        let (front, last) = unsnoc c s in
        if last == b'+'
        then update_property r game front values false false
        else if last == b'-'
        then update_property r game front values false true
        else update_property r game (c ∷ s) values true false
  ]
]

-- The loop of Game_UpdateProperties, with the working copy of each string.
pub apply_updates : Registry → Text → List Text → Option (Registry × CmdlineStatus)
apply_updates r game [] = some (r, ok)
apply_updates r game (prop ∷ props) = elim (alloc r) [
  | none ↦ some (r, not_enough_memory)
  | some r' ↦ apply_update r' game prop >>= λ u. elim u.1 [
    | ok ↦ apply_updates u.0 game props
    | refused ↦ some (u.0, refused)
  ]
]

-- Game_UpdateProperties
unfoldable pub update_properties : Registry → Text → List Text → Option (Registry × CmdlineStatus)
unfolding apply_updates
update_properties r game props =
    let created = get_anonymous r game true in
    elim created.1 [
      | none ↦ some (created.0, not_enough_memory)
      | some p ↦ apply_updates created.0 game props
    ]

abbrev pub builtin_props : List (Text × List Text)
builtin_props =
    (codes "Quake3Arena", codes "protocols=66,67,68" ∷ codes "heartbeat=QuakeArena-1" ∷ [])
    ∷ (
      codes "wolfmp",
      codes "protocols=50,59,60"
          ∷ codes "heartbeat=Wolfenstein-1"
          ∷ codes "flatline=WolfFlatline-1"
          ∷ [],
    )
    ∷ (
      codes "et",
      codes "protocols=72,80,83,84"
          ∷ codes "options=send-empty-servers,send-full-servers"
          ∷ codes "heartbeat=EnemyTerritory-1"
          ∷ codes "flatline=ETFlatline-1"
          ∷ [],
    )
    ∷ []

pub init_from : Registry → List (Text × List Text) → Option Registry
init_from r [] = some r
init_from r ((gamename, props) ∷ rest) =
    update_properties r gamename props >>= λ u. init_from u.0 rest

-- Game_InitProperties: the results of the updates are ignored.
unfoldable pub init_properties : ℕ → Option Registry
unfolding init_from
init_properties memory = init_from (empty memory) builtin_props
