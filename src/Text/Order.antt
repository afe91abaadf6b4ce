-- ===== src/Text/Order.antt =====
-- `strcmp` is a linear order whose equality is that of the strings.
use Prim.Native.Nat.{Ordering}
use dpmaster_x.Prelude.{◌≡◌, refl, [], ◌∷◌, arith, true, ◌↔◌}
use dpmaster_x.Text.{Text, strcmp, str_eq}

pub strcmp_refl : (s : Text) → strcmp s s ≡ Ordering.eq
unfolding strcmp
strcmp_refl [] = refl
strcmp_refl (c ∷ s) = ground (arith, strcmp_refl s)

pub strcmp_eq : (s t : Text) → strcmp s t ≡ Ordering.eq → s ≡ t
unfolding strcmp
strcmp_eq [] [] h = refl
strcmp_eq [] (d ∷ t) h = cc
strcmp_eq (c ∷ s) [] h = cc
strcmp_eq (c ∷ s) (d ∷ t) h = ground (arith, strcmp_eq s t)

pub str_eq_iff : (s t : Text) → (str_eq s t ≡ true) ↔ (s ≡ t)
str_eq_iff s t = ground (arith, strcmp_eq s t, strcmp_refl s)

pub strcmp_swap : (s t : Text) → strcmp s t ≡ Ordering.gt → strcmp t s ≡ Ordering.lt
unfolding strcmp
strcmp_swap [] [] h = cc
strcmp_swap [] (d ∷ t) h = cc
strcmp_swap (c ∷ s) [] h = refl
strcmp_swap (c ∷ s) (d ∷ t) h = ground (arith, strcmp_swap s t)

pub strcmp_trans :
    (s t u : Text) → strcmp s t ≡ Ordering.lt → strcmp t u ≡ Ordering.lt → strcmp s u ≡ Ordering.lt
unfolding strcmp
strcmp_trans s [] [] h k = cc
strcmp_trans [] [] (e ∷ u) h k = cc
strcmp_trans (c ∷ s) [] (e ∷ u) h k = cc
strcmp_trans s (d ∷ t) [] h k = cc
strcmp_trans [] (d ∷ t) (e ∷ u) h k = refl
strcmp_trans (c ∷ s) (d ∷ t) (e ∷ u) h k = ground (arith, strcmp_trans s t u)
