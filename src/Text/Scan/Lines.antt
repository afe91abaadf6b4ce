-- ===== src/Text/Scan/Lines.antt =====
-- The lines of a file that was written line by line.
use native.Mathlib.Nat.{pow-suc}
use dpmaster_x.Prelude.{
  ℕ, zero, suc, ◌+◌, ◌-◌, ◌*◌, ◌/◌, ◌^◌, ◌<◌, ◌≤◌, ◌≡◌, ◌≢◌, refl, ap, [], ◌∷◌, ◌++◌, arith, length,
  length-append, Bool-cases, inl, inr, ltb, lt→ltb, subst,
}
use dpmaster_x.Text.{Text, push_char, is_space, c_string}
use dpmaster_x.Text.Print.{print_unsigned, digits_of}
use dpmaster_x.Text.Scan.Fields.{NoSpace}
use dpmaster_x.Text.Scan.{lines_from, lines_of}

-- No byte is a newline or '\0'.
abbrev pub OneLine : Text → Type 0
OneLine [] = Unit
OneLine (c ∷ s) = (c ≢ 10) × (0 < c) × OneLine s

lines_from-line :
    (size room : ℕ) (w rest : Text)
    → OneLine w
    → length w + 1 ≤ room
    → lines_from size room (w ++ 10 ∷ rest) ≡ (w ++ 10 ∷ []) ∷ lines_from size size rest
unfolding lines_from push_char
lines_from-line size room [] rest o l = ground arith
lines_from-line size room (c ∷ w) rest o l =
    ground (arith, o.0, lines_from-line size (room - 1) w rest o.2 (omega arith))

-- A line that fits into the buffer is read whole, and the rest of the file as a file of its own.
pub lines_of-line :
    (size : ℕ) (w rest : Text)
    → OneLine w
    → length w + 1 ≤ size
    → lines_of size (w ++ 10 ∷ rest) ≡ (w ++ 10 ∷ []) ∷ lines_of size rest
unfolding lines_of
lines_of-line size w rest o l = lines_from-line size size w rest o l

pub OneLine-append : (s t : Text) → OneLine s → OneLine t → OneLine (s ++ t)
OneLine-append [] t h k = k
OneLine-append (c ∷ s) t h k = (h.0, h.1, OneLine-append s t h.2 k)

pub OneLine-NoSpace : (s : Text) → NoSpace s → OneLine s
unfolding is_space
OneLine-NoSpace [] h = tt
OneLine-NoSpace (c ∷ s) h = (ground (arith, h.0), h.1, OneLine-NoSpace s h.2)

OneLine-digits_of : (rounds n : ℕ) → OneLine (digits_of rounds n)
unfolding digits_of
OneLine-digits_of zero n = tt
OneLine-digits_of (suc rounds) n = elim (Bool-cases (ltb n 10)) [
  | inl small ↦ rw (small, digits_of) (omega arith, omega arith, tt)
  | inr large ↦
      rw (large, digits_of)
        (OneLine-append (digits_of rounds (n / 10)) _ (OneLine-digits_of rounds (n / 10))
          (omega arith, omega arith, tt))
]

pub OneLine-print_unsigned : (n : ℕ) → OneLine (print_unsigned n)
unfolding print_unsigned
OneLine-print_unsigned n = OneLine-digits_of (suc n) n

-- The C string of a line is the whole line.
pub c_string-OneLine : (w : Text) → OneLine w → c_string (w ++ 10 ∷ []) ≡ w ++ 10 ∷ []
unfolding c_string
c_string-OneLine [] h = refl
c_string-OneLine (zero ∷ w) h = absurd (omega arith)
c_string-OneLine (suc c ∷ w) h = ap (λ s. suc c ∷ s) (c_string-OneLine w h.2)

length-digits_of : (k rounds n : ℕ) → n < 10 ^ suc k → length (digits_of rounds n) ≤ suc k
unfolding digits_of
length-digits_of k zero n h = omega arith
length-digits_of zero (suc rounds) n h = rw (lt→ltb n 10 h, digits_of) (omega arith)
length-digits_of (suc k) (suc rounds) n h = elim (Bool-cases (ltb n 10)) [
  | inl small ↦ rw (small, digits_of) (omega arith)
  | inr large ↦
      rw (large, digits_of, length-append)
        (omega (
          arith,
          length-digits_of k rounds (n / 10)
              (tenth n (10 ^ suc k) (subst (λ m. n < m) (pow-suc 10 (suc k)) h)),
        ))
]
  where
    tenth : (n p : ℕ) → n < p * 10 → n / 10 < p
    tenth n p h = omega arith

pub length-print_unsigned : (k n : ℕ) → n < 10 ^ suc k → length (print_unsigned n) ≤ suc k
unfolding print_unsigned
length-print_unsigned k n h = length-digits_of k (suc n) n h
