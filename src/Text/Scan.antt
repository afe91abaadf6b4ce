-- ===== src/Text/Scan.antt =====
-- The conversions of `sscanf`, as glibc reads them, and `fgets`. Each conversion gives the value
-- and what is left of the text, and nothing if it does not match.
pub mod Fields
pub mod Lines
use mathlib.Core.Option
use dpmaster_x.Prelude.{
  ℕ, zero, suc, ◌+◌, ◌-◌, ◌%◌, ◌^◌, Bool, true, false, Option, none, some, List, [], ◌∷◌, ltb, leb,
  ◌==◌, ◌||◌, if◌then◌else◌, ℤ,
}
use dpmaster_x.Text.{Text, skip_spaces, is_space, digits_in, signed, to_int, push_char}

-- A 64-bit `unsigned long`: too large a number gives the largest one, and a minus sign is applied
-- modulo 2 ^ 64.
abbrev pub ulong_of : Bool → ℕ → ℕ
ulong_of negative m =
    if ltb (2 ^ 64 - 1) m then 2 ^ 64 - 1 else if negative then (2 ^ 64 - m) % 2 ^ 64 else m

-- The sign, then the digits.
signed_ulong : Text → Option (ℕ × Text)
signed_ulong [] = none
signed_ulong (c ∷ s) =
    if c == b'-'
    then Option.map (λ r. (ulong_of true r.0, r.1)) (digits_in 10 s)
    else if c == b'+'
    then Option.map (λ r. (ulong_of false r.0, r.1)) (digits_in 10 s)
    else Option.map (λ r. (ulong_of false r.0, r.1)) (digits_in 10 (c ∷ s))

-- "%lu"
unfoldable pub scan_ulong : Text → Option (ℕ × Text)
unfolding signed_ulong digits_in
scan_ulong s = signed_ulong (skip_spaces s)

-- "%u" and "%hu": the low bits of the number
unfoldable pub scan_unsigned : ℕ → Text → Option (ℕ × Text)
unfolding scan_ulong
scan_unsigned bits s = Option.map (λ r. (r.0 % 2 ^ bits, r.1)) (scan_ulong s)

-- "%d"
unfoldable pub scan_int : Text → Option (ℤ × Text)
unfolding signed digits_in
scan_int s = Option.map (λ r. (to_int r.0, r.1)) (signed (digits_in 10) (skip_spaces s))

-- Up to `n` bytes that are no white space, and the rest.
take_word : ℕ → Text → Text × Text
unfolding is_space
take_word zero s = ([], s)
take_word (suc n) [] = ([], [])
take_word (suc n) (c ∷ s) =
    let word = take_word n s in if is_space c then ([], c ∷ s) else (c ∷ word.0, word.1)

-- "%<n>s"
unfoldable pub scan_string : ℕ → Text → Option (Text × Text)
unfolding take_word skip_spaces
scan_string n s =
    let word = take_word n (skip_spaces s) in
    elim word.0 [ [] ↦ none | c ∷ w ↦ some (c ∷ w, word.1) ]

-- The lines that `fgets` reads from a file into a buffer of `size + 1` bytes until it returns
-- NULL: each ends with a newline, when the buffer is full, or with the file. `room` bytes fit
-- into the buffer behind those of the current line.
lines_from : ℕ → ℕ → Text → List Text
unfolding push_char
lines_from size room [] = []
lines_from size room (c ∷ s) =
    let ended = c == 10 || leb room 1 in
    let rest = lines_from size (if ended then size else room - 1) s in
    if ended then (c ∷ []) ∷ rest else push_char c rest

unfoldable pub lines_of : ℕ → Text → List Text
unfolding lines_from
lines_of size file = lines_from size size file
