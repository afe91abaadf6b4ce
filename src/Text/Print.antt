-- ===== src/Text/Print.antt =====
-- The decimal conversions of `fprintf`, and what a number printed by them begins with.
use dpmaster_x.Prelude.{
  ℕ, zero, suc, ◌+◌, ◌*◌, ◌/◌, ◌%◌, ◌≤◌, ◌<◌, true, false, [], ◌∷◌, ◌++◌, ltb, ℤ, pos, negsuc,
  arith, ◌≡◌, refl, ◌∙◌, ap, Bool-cases, inl, inr, lt→ltb, some,
}
use mathlib.Core.List.{append_assoc}
use dpmaster_x.Text.{Text, digits_from, digits_in, digit_value, is_space}

-- The digits of a number below 10 ^ rounds.
unfoldable pub digits_of : ℕ → ℕ → Text
digits_of zero n = []
digits_of (suc rounds) n = elim (ltb n 10) [
  | true ↦ (b'0' + n) ∷ []
  | false ↦ digits_of rounds (n / 10) ++ (b'0' + n % 10) ∷ []
]

-- "%lu", "%u" and "%hu"
unfoldable pub print_unsigned : ℕ → Text
unfolding digits_of
print_unsigned n = digits_of (suc n) n

-- "%d"
unfoldable pub print_int : ℤ → Text
unfolding print_unsigned
print_int (pos n) = print_unsigned n
print_int (negsuc n) = b'-' ∷ print_unsigned (suc n)

-- The first byte is a digit.
abbrev pub Starts : Text → Type 0
Starts [] = ⊥
Starts (c ∷ s) = (b'0' ≤ c) × (c ≤ b'9')

Starts-append : (s t : Text) → Starts s → Starts (s ++ t)
Starts-append [] t h = absurd h
Starts-append (c ∷ s) t h = h

digits_of-Starts : (rounds n : ℕ) → n < rounds → Starts (digits_of rounds n)
unfolding digits_of
digits_of-Starts zero n h = absurd (omega arith)
digits_of-Starts (suc rounds) n h = elim (Bool-cases (ltb n 10)) [
  | inl small ↦ rw (small, digits_of) (ground arith)
  | inr large ↦
      rw (large, digits_of)
        (Starts-append (digits_of rounds (n / 10)) _
          (digits_of-Starts rounds (n / 10) (ground (arith, large))))
]

pub print_unsigned-Starts : (n : ℕ) (rest : Text) → Starts (print_unsigned n ++ rest)
unfolding print_unsigned
print_unsigned-Starts n rest =
    Starts-append (digits_of (suc n) n) rest (digits_of-Starts (suc n) n (omega arith))

digit_value-digit : (d : ℕ) → d < 10 → digit_value (b'0' + d) ≡ d
unfolding digit_value
digit_value-digit d h = ground arith

digits_from-digit :
    (acc d : ℕ) (rest : Text)
    → d < 10
    → digits_from 10 acc ((b'0' + d) ∷ rest) ≡ digits_from 10 (acc * 10 + d) rest
unfolding digits_from
digits_from-digit acc d rest h =
    let below : ltb (digit_value (b'0' + d)) 10 ≡ true =
      rw (digit_value-digit d h) (lt→ltb d 10 h) in
    rw (below, digits_from) (rw (digit_value-digit d h) refl)

-- Reading what was printed, in base ten.
digits_from-digits_of :
    (rounds n : ℕ) (rest : Text)
    → n < rounds
    → digits_from 10 0 (digits_of rounds n ++ rest) ≡ digits_from 10 n rest
unfolding digits_of
digits_from-digits_of zero n rest h = absurd (omega arith)
digits_from-digits_of (suc rounds) n rest h = elim (Bool-cases (ltb n 10)) [
  | inl small ↦
      rw (small, digits_of)
        (digits_from-digit 0 n rest (ground (arith, small))
          ∙ ap (λ m. digits_from 10 m rest) (omega arith))
  | inr large ↦
      rw (large, digits_of, append_assoc)
        (digits_from-digits_of rounds (n / 10) ((b'0' + n % 10) ∷ rest) (ground (arith, large))
          ∙ digits_from-digit (n / 10) (n % 10) rest (omega arith)
          ∙ ap (λ m. digits_from 10 m rest) (omega arith))
]

-- What stands behind a printed field: nothing, or white space.
abbrev pub Ends : Text → Type 0
Ends [] = Unit
Ends (c ∷ s) = is_space c ≡ true

digits_from-Ends : (n : ℕ) (rest : Text) → Ends rest → digits_from 10 n rest ≡ (n, rest)
unfolding digits_from digit_value is_space
digits_from-Ends n [] h = refl
digits_from-Ends n (c ∷ s) h = ground (arith, h)

digits_in-Starts : (s : Text) → Starts s → digits_in 10 s ≡ some (digits_from 10 0 s)
unfolding digits_in digit_value
digits_in-Starts [] h = absurd h
digits_in-Starts (c ∷ s) h = ground (arith, h)

pub digits_in-print_unsigned :
    (n : ℕ) (rest : Text) → Ends rest → digits_in 10 (print_unsigned n ++ rest) ≡ some (n, rest)
unfolding print_unsigned
digits_in-print_unsigned n rest h =
    digits_in-Starts (print_unsigned n ++ rest) (print_unsigned-Starts n rest)
    ∙ ap some (digits_from-digits_of (suc n) n rest (omega arith) ∙ digits_from-Ends n rest h)
