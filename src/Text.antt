-- ===== src/Text.antt =====
-- C strings, without their '\0', as lists of byte values, and the functions of <string.h>,
-- <stdlib.h> and <stdio.h> that the program calls on them.
pub mod Order
pub mod Print
pub mod Scan
use Prim.Native.Char.{code}
use Prim.Native.String.{String}
use Prim.Native.Nat.{Ordering}
use mathlib.Core.Option
use dpmaster_x.Prelude.{
  ℕ, zero, suc, ◌+◌, ◌-◌, ◌*◌, ◌^◌, min, ◌||◌, ◌&&◌, not, Bool, true, false, Option, none, some,
  List, [], ◌∷◌, take, ltb, leb, ◌==◌, if◌then◌else◌, ℤ, pos, negsuc, int32, uint32,
}

abbrev pub Text : Type 0
Text = List ℕ

-- The bytes of an ASCII literal.
abbrev pub codes : String → Text
codes String.[] = []
codes (String.◌∷◌ c s) = code c ∷ codes s

-- The string that starts at a buffer's first byte: what stands before the '\0'.
unfoldable pub c_string : List ℕ → Text
c_string [] = []
c_string (zero ∷ s) = []
c_string (suc c ∷ s) = suc c ∷ c_string s

-- The sign of `strcmp (s, t)`; the terminating '\0' is below every other byte.
unfoldable pub strcmp : Text → Text → Ordering
strcmp [] [] = Ordering.eq
strcmp [] (d ∷ t) = Ordering.lt
strcmp (c ∷ s) [] = Ordering.gt
strcmp (c ∷ s) (d ∷ t) =
    if ltb c d then Ordering.lt else if ltb d c then Ordering.gt else strcmp s t

-- `strcmp (s, t) == 0`
abbrev pub str_eq : Text → Text → Bool
str_eq s t = elim (strcmp s t) [ Ordering.eq ↦ true | _ ↦ false ]

-- `strncmp (p, s, strlen (p)) == 0`, with the rest of `s` behind the prefix
unfoldable pub after_prefix : Text → Text → Option Text
after_prefix [] s = some s
after_prefix (c ∷ p) [] = none
after_prefix (c ∷ p) (d ∷ s) = if c == d then after_prefix p s else none

-- `strchr (s, c) != NULL`
unfoldable pub has_char : ℕ → Text → Bool
has_char c [] = false
has_char c (d ∷ s) = d == c || has_char c s

-- The bytes before the first `c`, or all of them.
unfoldable pub before_char : ℕ → Text → Text
before_char c [] = []
before_char c (d ∷ s) = if d == c then [] else d ∷ before_char c s

-- The bytes behind the first `c`, if there is one.
unfoldable pub after_char : ℕ → Text → Option Text
after_char c [] = none
after_char c (d ∷ s) = if d == c then some s else after_char c s

-- Adds a byte in front of the first piece.
push_char : ℕ → List Text → List Text
push_char c [] = (c ∷ []) ∷ []
push_char c (w ∷ ws) = (c ∷ w) ∷ ws

split : ℕ → Text → List Text
unfolding push_char
split d [] = [] ∷ []
split d (c ∷ s) = let rest = split d s in if c == d then [] ∷ rest else push_char c rest

keep_words : List Text → List Text
keep_words [] = []
keep_words ([] ∷ ws) = keep_words ws
keep_words ((c ∷ w) ∷ ws) = (c ∷ w) ∷ keep_words ws

-- The tokens that `strtok` finds until it returns NULL: the non-empty runs between delimiters.
unfoldable pub tokens : ℕ → Text → List Text
unfolding split keep_words
tokens d s = keep_words (split d s)

-- `isspace` in the C locale
unfoldable pub is_space : ℕ → Bool
is_space c = c == 32 || (leb 9 c && leb c 13)

unfoldable pub skip_spaces : Text → Text
unfolding is_space
skip_spaces [] = []
skip_spaces (c ∷ s) = if is_space c then skip_spaces s else c ∷ s

unfoldable pub before_space : Text → Text
unfolding is_space
before_space [] = []
before_space (c ∷ s) = if is_space c then [] else c ∷ before_space s

-- `sscanf (s, "%<n>s", …)`: none if only white space is left.
unfoldable pub scan_word : ℕ → Text → Option Text
unfolding skip_spaces before_space
scan_word n s = elim (before_space (skip_spaces s)) [ [] ↦ none | c ∷ w ↦ some (take n (c ∷ w)) ]

-- The value of a digit or a letter, 36 for any other byte.
digit_value : ℕ → ℕ
digit_value c =
    if leb b'0' c && leb c b'9'
    then c - b'0'
    else if leb b'a' c && leb c b'z'
    then c - b'a' + 10
    else if leb b'A' c && leb c b'Z'
    then c - b'A' + 10
    else 36

-- The digits at the front: the number so far, and the rest.
digits_from : ℕ → ℕ → Text → ℕ × Text
unfolding digit_value
digits_from base acc [] = (acc, [])
digits_from base acc (c ∷ s) = elim (ltb (digit_value c) base) [
  | true ↦ digits_from base (acc * base + digit_value c) s
  | false ↦ (acc, c ∷ s)
]

-- At least one digit.
unfoldable pub digits_in : ℕ → Text → Option (ℕ × Text)
unfolding digits_from
digits_in base [] = none
digits_in base (c ∷ s) =
    if ltb (digit_value c) base then some (digits_from base 0 (c ∷ s)) else none

-- Base 0: a prefix "0x" that a hexadecimal digit follows, a leading zero, or decimal.
unsigned_base_0 : Text → Option (ℕ × Text)
unfolding digits_in
unsigned_base_0 [] = none
unsigned_base_0 (c ∷ []) = digits_in 10 (c ∷ [])
unsigned_base_0 (c ∷ x ∷ s) =
    if c == b'0'
    then (if x == b'x' || x == b'X'
        then (elim (digits_in 16 s) [ none ↦ some (0, x ∷ s) | some r ↦ some r ])
        else digits_in 8 (c ∷ x ∷ s))
    else digits_in 10 (c ∷ x ∷ s)

-- A 64-bit `long`, saturated.
long_of : Bool → ℕ → ℤ
long_of false m = pos (min m (2 ^ 63 - 1))
long_of true zero = pos 0
long_of true (suc m) = negsuc (min m (2 ^ 63 - 1))

-- The sign, then the digits by `f`.
unfoldable pub signed : (Text → Option (ℕ × Text)) → Text → Option (ℤ × Text)
unfolding long_of
signed f [] = none
signed f (c ∷ s) =
    if c == b'-'
    then Option.map (λ r. (long_of true r.0, r.1)) (f s)
    else if c == b'+'
    then Option.map (λ r. (long_of false r.0, r.1)) (f s)
    else Option.map (λ r. (long_of false r.0, r.1)) (f (c ∷ s))

-- `strtol (s, &end_ptr, 0)`: the value and the text at `end_ptr`, none if `end_ptr == s`.
unfoldable pub strtol : Text → Option (ℤ × Text)
unfolding skip_spaces unsigned_base_0 signed
strtol s = signed unsigned_base_0 (skip_spaces s)

-- `(int)z`
abbrev pub to_int : ℤ → ℤ
to_int z = int32 (uint32 z)

-- `atoi (s)`
unfoldable pub atoi : Text → ℤ
unfolding skip_spaces digits_in signed
atoi s = elim (signed (digits_in 10) (skip_spaces s)) [ none ↦ pos 0 | some (z, _) ↦ to_int z ]
