-- ===== src/Messages/Infostring/Pairs.antt =====
-- src/messages.c: SearchInfostring over the infostring of a list of pairs.
use mathlib.Core.List.{append_assoc, append-nil}
use dpmaster_x.Prelude.{
  ℕ, zero, suc, ◌+◌, ◌≤◌, ◌≡◌, refl, sym, ap, ◌∙◌, false, Option, none, some, List, [], ◌∷◌, ◌++◌,
  ◌==◌, if◌then◌else◌, length, arith, Bool-cases, length-append, ◌⊎◌, inl, inr,
}
use dpmaster_x.Text.{Text, str_eq, after_char, has_char}
use dpmaster_x.Messages.Infostring.{
  read_key, read_value, search_pairs, search_infostring, max_length,
}

-- A name or a value: no backslash, and at most 255 bytes.
pub record IsToken (s : Text) : Type 0 where
  pub plain : has_char b'\\' s ≡ false
  pub short : length s ≤ max_length

pub data AreTokens : List (Text × Text) → Type 0 where
  no_pairs : AreTokens []
  more_pairs :
      (k v : Text) (pairs : List (Text × Text))
      → IsToken k
      → IsToken v
      → AreTokens pairs
      → AreTokens ((k, v) ∷ pairs)

-- The infostring of a list of pairs.
pub infostring : List (Text × Text) → Text
infostring [] = []
infostring ((k, v) ∷ pairs) = b'\\' ∷ k ++ (b'\\' ∷ v ++ infostring pairs)

-- The value of the first pair with the key.
pub first_value : List (Text × Text) → Text → Option Text
first_value [] key = none
first_value ((k, v) ∷ pairs) key = if str_eq k key then some v else first_value pairs key

-- Nothing, or a backslash.
IsEnd : Text → Type 0
IsEnd rest = (rest ≡ []) ⊎ ((s : Text) × (rest ≡ b'\\' ∷ s))

read_key-token :
    (buffer : Text) (n : ℕ) (k s : Text)
    → has_char b'\\' k ≡ false
    → n + length k ≤ max_length
    → read_key buffer n (k ++ b'\\' ∷ s) ≡ some (buffer ++ k, s)
unfolding read_key has_char
read_key-token buffer n [] s p h = ap (λ b. some (b, s)) (sym (append-nil buffer))
read_key-token buffer n (c ∷ k) s p h =
    rw (plain, room)
      (read_key-token (buffer ++ c ∷ []) (suc n) k s (ground (arith, p)) (omega arith)
        ∙ ap (λ b. some (b, s)) (append_assoc buffer (c ∷ []) k))
  where
    plain : (c == b'\\') ≡ false
    plain = ground (arith, p)

    room : (n == max_length) ≡ false
    room = ground arith

read_value-token :
    (buffer : Text) (n : ℕ) (v rest : Text)
    → has_char b'\\' v ≡ false
    → n + length v ≤ max_length
    → IsEnd rest
    → read_value buffer n (v ++ rest) ≡ some (buffer ++ v)
unfolding read_value has_char IsEnd
read_value-token buffer n [] rest p h (inl e) = rw (e) (ap some (sym (append-nil buffer)))
read_value-token buffer n [] rest p h (inr (s, e)) = rw (e) (ap some (sym (append-nil buffer)))
read_value-token buffer n (c ∷ v) rest p h e =
    rw (plain, room)
      (read_value-token (buffer ++ c ∷ []) (suc n) v rest (ground (arith, p)) (omega arith) e
        ∙ ap some (append_assoc buffer (c ∷ []) v))
  where
    plain : (c == b'\\') ≡ false
    plain = ground (arith, p)

    room : (n == max_length) ≡ false
    room = ground arith

after_char-token :
    (v s : Text) → has_char b'\\' v ≡ false → after_char b'\\' (v ++ b'\\' ∷ s) ≡ some s
unfolding after_char has_char
after_char-token [] s p = refl
after_char-token (c ∷ v) s p = ground (arith, p, after_char-token v s)

after_char-none : (v : Text) → has_char b'\\' v ≡ false → after_char b'\\' v ≡ none
unfolding after_char has_char
after_char-none [] p = refl
after_char-none (c ∷ v) p = ground (arith, p, after_char-none v)

infostring-IsEnd : (pairs : List (Text × Text)) → IsEnd (infostring pairs)
unfolding infostring IsEnd
infostring-IsEnd [] = inl refl
infostring-IsEnd ((k, v) ∷ pairs) = inr (k ++ (b'\\' ∷ v ++ infostring pairs), refl)

-- A round of the search at a pair, and what it leaves to the later rounds.
search_pairs-step :
    (k v rest key : Text) (rounds : ℕ) (later : Option Text)
    → IsToken k
    → IsToken v
    → IsEnd rest
    → (elim (after_char b'\\' (v ++ rest)) as (λ x. Option Text) [
      | none ↦ none
      | some rest ↦ search_pairs rounds rest key
    ])
      ≡ later
    → search_pairs (suc rounds) (k ++ (b'\\' ∷ v ++ rest)) key
      ≡ (if str_eq k key then some v else later)
unfolding search_pairs
search_pairs-step k v rest key rounds later tk tv end h = elim (Bool-cases (str_eq k key)) [
  | inl same ↦
      rw (named, same, search_pairs)
        (read_value-token [] 0 v rest tv.plain (omega (arith, tv.short)) end)
  | inr other ↦ rw (named, other, search_pairs) h
]
  where
    named : read_key [] 0 (k ++ (b'\\' ∷ v ++ rest)) ≡ some (k, v ++ rest)
    named = read_key-token [] 0 k (v ++ rest) tk.plain (omega (arith, tk.short))

-- The search from the first name on; a round is enough for each pair.
search_pairs_lem :
    (k v : Text) (pairs : List (Text × Text)) (key : Text) (rounds : ℕ)
    → IsToken k
    → IsToken v
    → AreTokens pairs
    → length pairs ≤ rounds
    → search_pairs (suc rounds) (k ++ (b'\\' ∷ v ++ infostring pairs)) key
      ≡ first_value ((k, v) ∷ pairs) key
unfolding search_pairs infostring first_value IsEnd
search_pairs_lem k v _ key rounds tk tv no_pairs h =
    search_pairs-step k v [] key rounds none tk tv (inl refl)
      (rw (append-nil v, after_char-none v tv.plain) refl)
search_pairs_lem k v _ key zero tk tv (more_pairs k' v' pairs tk' tv' ts) h = absurd (omega arith)
search_pairs_lem k v _ key (suc rounds) tk tv (more_pairs k' v' pairs tk' tv' ts) h =
    search_pairs-step k v (infostring ((k', v') ∷ pairs)) key (suc rounds)
      (first_value ((k', v') ∷ pairs) key) tk tv (infostring-IsEnd ((k', v') ∷ pairs))
      (rw (after_char-token v (k' ++ (b'\\' ∷ v' ++ infostring pairs)) tv.plain)
        (search_pairs_lem k' v' pairs key rounds tk' tv' ts (omega arith)))

length-infostring : (pairs : List (Text × Text)) → length pairs ≤ length (infostring pairs)
unfolding infostring
length-infostring [] = omega arith
length-infostring ((k, v) ∷ pairs) = omega (
  arith,
  length-append k (b'\\' ∷ v ++ infostring pairs),
  length-append v (infostring pairs),
  length-infostring pairs,
)

-- In the infostring built from pairs of a name and a value, none of which contains a backslash
-- or has more than 255 bytes, SearchInfostring finds for every key the value of the first pair
-- with that name, and nothing if there is none.
pub search_infostring-finds :
    (pairs : List (Text × Text)) (key : Text)
    → AreTokens pairs
    → search_infostring (infostring pairs) key ≡ first_value pairs key
unfolding search_infostring infostring first_value
search_infostring-finds _ key no_pairs = refl
search_infostring-finds _ key (more_pairs k v pairs tk tv ts) =
    search_pairs_lem k v pairs key (length body) tk tv ts (
      omega (
        arith,
        length-append k (b'\\' ∷ v ++ infostring pairs),
        length-append v (infostring pairs),
        length-infostring pairs,
      ))
  where
    body : Text
    body = k ++ (b'\\' ∷ v ++ infostring pairs)
