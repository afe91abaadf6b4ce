-- ===== src/Games/Sorted.antt =====
-- src/games.c: Game_Find over a sorted list of names.
use Prim.Native.Nat.{Ordering}
use native.Mathlib.Decide.{dec_lt}
use dpmaster_x.Prelude.{
  ℕ, zero, suc, ◌<◌, ◌≡◌, refl, sym, ◌∙◌, ◌≢◌, Bool, true, false, ◌||◌, List, [], ◌∷◌, length,
  get_or, arith, Bool-cases, inl, inr,
}
use dpmaster_x.Text.{Text, strcmp, str_eq}
use dpmaster_x.Text.Order.{strcmp_eq, strcmp_refl, strcmp_swap, strcmp_trans}
use dpmaster_x.Games.{find}
use dpmaster_x.Games.Search.{Rises, Searched, search-Searched}

-- The names of a list, compared one by one.
unfoldable pub listed : Text → List Text → Bool
listed g [] = false
listed g (n ∷ names) = str_eq n g || listed g names

abbrev pub name_at : List Text → ℕ → Text
name_at names i = get_or names i []

-- Strictly ascending.
abbrev pub IsSorted : List Text → Type 0
IsSorted names =
    (i j : ℕ) → i < j → j < length names → strcmp (name_at names i) (name_at names j) ≡ Ordering.lt

pub strcmp_flip : (s t : Text) → strcmp s t ≡ Ordering.lt → strcmp t s ≡ Ordering.gt
unfolding strcmp
strcmp_flip [] [] h = cc
strcmp_flip [] (d ∷ t) h = refl
strcmp_flip (c ∷ s) [] h = cc
strcmp_flip (c ∷ s) (d ∷ t) h = ground (arith, strcmp_flip s t)

pub sorted-Rises :
    (names : List Text) (g : Text)
    → IsSorted names
    → Rises (λ i. strcmp (name_at names i) g) (length names)
sorted-Rises names g s = record {
  lower = λ i j l k e. strcmp_trans (name_at names i) (name_at names j) g (s i j l k) e;
  upper = λ i j l k e. strcmp_flip g (name_at names j) (
      strcmp_trans g (name_at names i) (name_at names j) (strcmp_swap (name_at names i) g e)
        (s i j l k));
}

pub find-Searched :
    (names : List Text) (g : Text)
    → IsSorted names
    → Searched (λ i. strcmp (name_at names i) g) (length names) (find names g)
unfolding find
find-Searched names g s = search-Searched _ (length names) (sorted-Rises names g s)

pub listed-get :
    (g : Text) (names : List Text) (i : ℕ)
    → i < length names
    → name_at names i ≡ g
    → listed g names ≡ true
unfolding listed
listed-get g [] i l e = absurd (omega arith)
listed-get g (n ∷ names) zero l e = ground (arith, strcmp_refl n)
listed-get g (n ∷ names) (suc i) l e = ground (arith, listed-get g names i)

pub listed-none :
    (g : Text) (names : List Text)
    → ((i : ℕ) → i < length names → strcmp (name_at names i) g ≢ Ordering.eq)
    → listed g names ≡ false
unfolding listed
listed-none g [] h = refl
listed-none g (n ∷ names) h =
    ground (arith, h 0, listed-none g names (λ i l. h (suc i) (omega arith)))

-- On a strictly ascending list of names the binary search Game_Find finds a name exactly if a
-- comparison with every name of the list does.
pub find-listed :
    (names : List Text) (g : Text) → IsSorted names → (find names g).0 ≡ listed g names
find-listed names g s =
    let r = find-Searched names g s in
    elim (Bool-cases (find names g).0) [
      | inl h ↦
          h ∙ sym (listed-get g names (find names g).1 (r.hit h).0 (strcmp_eq _ g (r.hit h).1))
      | inr h ↦
          h
          ∙ sym (
              listed-none g names (λ i l e. elim (dec_lt i (find names g).1) [
                | yes k ↦ ground (arith, r.below h i)
                | no k ↦ ground (arith, r.above h i)
              ]))
    ]
