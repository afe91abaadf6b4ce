-- ===== src/Text/Scan/Fields.antt =====
-- What `fprintf` printed is read back by `sscanf`, with the rest of the text behind it.
use mathlib.Core.Option
use dpmaster_x.Prelude.{
  ℕ, zero, suc, ◌%◌, ◌^◌, ◌≤◌, ◌<◌, ◌≡◌, refl, ◌∙◌, ap, false, some, [], ◌∷◌, ◌++◌, arith, length,
  pos,
}
use dpmaster_x.Text.{Text, skip_spaces, is_space, digits_in, signed, to_int}
use dpmaster_x.Text.Print.{
  print_unsigned, print_unsigned-Starts, Starts, Ends, digits_in-print_unsigned,
}
use dpmaster_x.Text.Scan.{scan_ulong, scan_unsigned, scan_int, scan_string, signed_ulong, take_word}

skip_spaces-Starts : (s : Text) → Starts s → skip_spaces (32 ∷ s) ≡ s
unfolding skip_spaces is_space
skip_spaces-Starts [] h = absurd h
skip_spaces-Starts (c ∷ s) h = ground (arith, h)

skip_spaces-Starts_now : (s : Text) → Starts s → skip_spaces s ≡ s
unfolding skip_spaces is_space
skip_spaces-Starts_now [] h = absurd h
skip_spaces-Starts_now (c ∷ s) h = ground (arith, h)

signed_ulong-Starts :
    (s : Text) (n : ℕ) (rest : Text)
    → Starts s
    → digits_in 10 s ≡ some (n, rest)
    → n < 2 ^ 64
    → signed_ulong s ≡ some (n, rest)
unfolding signed_ulong
signed_ulong-Starts [] n rest h e l = absurd h
signed_ulong-Starts (c ∷ s) n rest h e l = ground (arith, h, e)

pub scan_ulong-first :
    (n : ℕ) (rest : Text)
    → n < 2 ^ 64
    → Ends rest
    → scan_ulong (print_unsigned n ++ rest) ≡ some (n, rest)
unfolding scan_ulong
scan_ulong-first n rest l h =
    ap signed_ulong
      (skip_spaces-Starts_now (print_unsigned n ++ rest) (print_unsigned-Starts n rest))
    ∙ signed_ulong-Starts (print_unsigned n ++ rest) n rest (print_unsigned-Starts n rest)
        (digits_in-print_unsigned n rest h) l

scan_ulong-print :
    (n : ℕ) (rest : Text)
    → n < 2 ^ 64
    → Ends rest
    → scan_ulong (32 ∷ print_unsigned n ++ rest) ≡ some (n, rest)
unfolding scan_ulong
scan_ulong-print n rest l h =
    ap signed_ulong (skip_spaces-Starts (print_unsigned n ++ rest) (print_unsigned-Starts n rest))
    ∙ signed_ulong-Starts (print_unsigned n ++ rest) n rest (print_unsigned-Starts n rest)
        (digits_in-print_unsigned n rest h) l

pub scan_unsigned-print :
    (bits n : ℕ) (rest : Text)
    → n < 2 ^ 64
    → n % 2 ^ bits ≡ n
    → Ends rest
    → scan_unsigned bits (32 ∷ print_unsigned n ++ rest) ≡ some (n, rest)
unfolding scan_unsigned
scan_unsigned-print bits n rest l small h =
    ap (Option.map (λ r. (r.0 % 2 ^ bits, r.1))) (scan_ulong-print n rest l h)
    ∙ ap (λ m. some (m, rest)) small

signed-Starts :
    (s : Text) (n : ℕ) (rest : Text)
    → Starts s
    → digits_in 10 s ≡ some (n, rest)
    → n < 2 ^ 31
    → signed (digits_in 10) s ≡ some (pos n, rest)
unfolding signed
signed-Starts [] n rest h e l = absurd h
signed-Starts (c ∷ s) n rest h e l = ground (arith, h, e)

pub scan_int-print :
    (n : ℕ) (rest : Text)
    → n < 2 ^ 31
    → Ends rest
    → scan_int (32 ∷ print_unsigned n ++ rest) ≡ some (pos n, rest)
unfolding scan_int
scan_int-print n rest l h =
    ap (λ s. Option.map (λ r. (to_int r.0, r.1)) (signed (digits_in 10) s))
      (skip_spaces-Starts (print_unsigned n ++ rest) (print_unsigned-Starts n rest))
    ∙ ap (Option.map (λ r. (to_int r.0, r.1))) (
        signed-Starts (print_unsigned n ++ rest) n rest (print_unsigned-Starts n rest)
          (digits_in-print_unsigned n rest h) l)
    ∙ ap (λ z. some (z, rest)) (kept n l)
  where
    kept : (n : ℕ) → n < 2 ^ 31 → to_int (pos n) ≡ pos n
    kept n l = ground arith

-- No byte is white space or '\0'.
abbrev pub NoSpace : Text → Type 0
NoSpace [] = Unit
NoSpace (c ∷ s) = (is_space c ≡ false) × (0 < c) × NoSpace s

-- A word that "%<n>s" reads whole.
abbrev pub IsWord : ℕ → Text → Type 0
IsWord n s = (0 < length s) × (length s ≤ n) × NoSpace s

take_word-Ends : (n : ℕ) (rest : Text) → Ends rest → take_word n rest ≡ ([], rest)
unfolding take_word
take_word-Ends zero rest h = refl
take_word-Ends (suc n) [] h = refl
take_word-Ends (suc n) (c ∷ s) h = ground (arith, h)

take_word-append :
    (n : ℕ) (w rest : Text)
    → length w ≤ n
    → NoSpace w
    → Ends rest
    → take_word n (w ++ rest) ≡ (w, rest)
unfolding take_word
take_word-append n [] rest l k h = take_word-Ends n rest h
take_word-append zero (c ∷ w) rest l k h = absurd (omega arith)
take_word-append (suc n) (c ∷ w) rest l k h =
    ground (arith, take_word-append n w rest (omega arith) k.2 h, k.0)

skip_spaces-word : (n : ℕ) (w rest : Text) → IsWord n w → skip_spaces (32 ∷ w ++ rest) ≡ w ++ rest
unfolding skip_spaces is_space
skip_spaces-word n [] rest k = absurd (omega arith)
skip_spaces-word n (c ∷ w) rest k = ground (arith, k.2.0)

scan_string-take_word :
    (n : ℕ) (s w rest : Text)
    → 0 < length w
    → take_word n (skip_spaces s) ≡ (w, rest)
    → scan_string n s ≡ some (w, rest)
unfolding scan_string
scan_string-take_word n s [] rest k e = absurd (omega arith)
scan_string-take_word n s (c ∷ w) rest k e = ground (arith, e)

pub scan_string-word :
    (n : ℕ) (w rest : Text)
    → IsWord n w
    → Ends rest
    → scan_string n (32 ∷ w ++ rest) ≡ some (w, rest)
scan_string-word n w rest k h =
    scan_string-take_word n (32 ∷ w ++ rest) w rest k.0
      (ap (take_word n) (skip_spaces-word n w rest k) ∙ take_word-append n w rest k.1 k.2 h)
