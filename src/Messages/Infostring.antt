-- ===== src/Messages/Infostring.antt =====
-- src/messages.c: SearchInfostring, over the bytes before the '\0'.
pub mod Pairs
use dpmaster_x.Prelude.{
  ℕ, zero, suc, Bool, true, false, Option, none, some, List, [], ◌∷◌, ◌++◌, ◌==◌, if◌then◌else◌,
  length,
}
use dpmaster_x.Text.{Text, codes, str_eq, after_char}

-- `sizeof (str_buffer) - 1`
abbrev pub max_length : ℕ
max_length = 255

-- The key name, and what stands behind its '\\'; a name that is too long is skipped and empty.
-- `buffer` holds the first `buffer_ind` bytes.
unfoldable pub read_key : Text → ℕ → Text → Option (Text × Text)
read_key buffer buffer_ind [] = none
read_key buffer buffer_ind (c ∷ s) =
    let longer = read_key (buffer ++ c ∷ []) (suc buffer_ind) s in
    if c == b'\\'
    then some (buffer, s)
    else if buffer_ind == max_length
    then (elim (after_char b'\\' s) [ none ↦ none | some rest ↦ some ([], rest) ])
    else longer

-- The value; one that is too long is no value.
unfoldable pub read_value : Text → ℕ → Text → Option Text
read_value buffer buffer_ind [] = some buffer
read_value buffer buffer_ind (c ∷ s) =
    let longer = read_value (buffer ++ c ∷ []) (suc buffer_ind) s in
    if c == b'\\' then some buffer else if buffer_ind == max_length then none else longer

-- The loop over the pairs. Each round takes at least one byte.
unfoldable pub search_pairs : ℕ → Text → Text → Option Text
search_pairs zero s key = none
search_pairs (suc rounds) s key = elim (read_key [] 0 s) [
  | none ↦ none
  | some (name, value) ↦ elim (str_eq name key) [
    | true ↦ read_value [] 0 value
    | false ↦ elim (after_char b'\\' value) [
      | none ↦ none
      | some rest ↦ search_pairs rounds rest key
    ]
  ]
]

-- SearchInfostring
unfoldable pub search_infostring : Text → Text → Option Text
unfolding search_pairs
search_infostring [] key = none
search_infostring (c ∷ s) key = if c == b'\\' then search_pairs (suc (length s)) s key else none
