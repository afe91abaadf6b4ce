-- ===== src/Games/Insert.antt =====
-- src/games.c: what an insertion into an array leaves at each index.
use dpmaster_x.Prelude.{
  ℕ, zero, suc, ◌≤◌, ◌<◌, ◌≡◌, refl, ap, List, [], ◌∷◌, length, get_or, arith, ◌⊎◌, inl, inr,
}
use dpmaster_x.Games.{insert_at}

-- Insertion, index by index.
module _ {ℓ} {A : Type ℓ} where
  pub insert_at_before :
      (k i : ℕ) (x d : A) (xs : List A)
      → k ≤ length xs
      → i < k
      → get_or (insert_at k x xs) i d ≡ get_or xs i d
  insert_at_before zero i x d xs l h = absurd (omega arith)
  insert_at_before (suc k) i x d [] l h = absurd (omega arith)
  insert_at_before (suc k) zero x d (y ∷ xs) l h = refl
  insert_at_before (suc k) (suc i) x d (y ∷ xs) l h =
      insert_at_before k i x d xs (omega arith) (omega arith)

  pub insert_at_here :
      (k : ℕ) (x d : A) (xs : List A) → k ≤ length xs → get_or (insert_at k x xs) k d ≡ x
  insert_at_here zero x d xs l = refl
  insert_at_here (suc k) x d [] l = absurd (omega arith)
  insert_at_here (suc k) x d (y ∷ xs) l = insert_at_here k x d xs (omega arith)

  pub insert_at_behind :
      (k i : ℕ) (x d : A) (xs : List A)
      → k ≤ length xs
      → k ≤ i
      → get_or (insert_at k x xs) (suc i) d ≡ get_or xs i d
  insert_at_behind zero i x d xs l h = refl
  insert_at_behind (suc k) i x d [] l h = absurd (omega arith)
  insert_at_behind (suc k) zero x d (y ∷ xs) l h = absurd (omega arith)
  insert_at_behind (suc k) (suc i) x d (y ∷ xs) l h =
      insert_at_behind k i x d xs (omega arith) (omega arith)

unfoldable pub Spot : ℕ → ℕ → Type 0
Spot k i = (i < k) ⊎ ((i ≡ k) ⊎ ((i' : ℕ) × (i ≡ suc i') × (k ≤ i')))

pub spot : (k i : ℕ) → Spot k i
unfolding Spot
spot zero zero = inr (inl refl)
spot zero (suc i) = inr (inr (i, refl, omega arith))
spot (suc k) zero = inl (omega arith)
spot (suc k) (suc i) = elim (spot k i) [
  | inl l ↦ inl (omega arith)
  | inr (inl e) ↦ inr (inl (ap suc e))
  | inr (inr (i', e, l)) ↦ inr (inr (suc i', ap suc e, omega arith))
]

pub length-insert_at {ℓ} :
    {A : Type ℓ} (k : ℕ) (x : A) (xs : List A)
    → k ≤ length xs
    → length (insert_at k x xs) ≡ suc (length xs)
length-insert_at zero x xs l = refl
length-insert_at (suc k) x [] l = absurd (omega arith)
length-insert_at (suc k) x (y ∷ xs) l = ap suc (length-insert_at k x xs (omega arith))
