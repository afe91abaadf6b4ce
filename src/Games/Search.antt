-- ===== src/Games/Search.antt =====
-- The binary search of src/games.c (Game_Find and Game_FindAnonymous): it finds an entry if there
-- is one, and otherwise the place where the entry belongs.
use Prim.Native.Nat.{Ordering}
use dpmaster_x.Prelude.{
  ℕ, zero, suc, ◌+◌, ◌-◌, ◌/◌, ◌≤◌, ◌<◌, ◌≡◌, refl, ◌⊎◌, inl, inr, Bool, true, false, arith, ltb,
  Bool-cases, ltb→lt, subst, sym,
}
use native.Mathlib.Decide.{ℕ_discrete}
use dpmaster_x.Games.{search_from}

-- An order that does not fall: below an entry that is too small all are too small.
pub record Rises (order : ℕ → Ordering) (n : ℕ) : Type 0 where
  pub lower : (i j : ℕ) → i < j → j < n → order j ≡ Ordering.lt → order i ≡ Ordering.lt
  pub upper : (i j : ℕ) → i < j → j < n → order i ≡ Ordering.gt → order j ≡ Ordering.gt

-- What a search over `n` entries returned.
pub record Searched (order : ℕ → Ordering) (n : ℕ) (r : Bool × ℕ) : Type 0 where
  pub hit : r.0 ≡ true → (r.1 < n) × (order r.1 ≡ Ordering.eq)
  pub place : r.0 ≡ false → r.1 ≤ n
  pub below : r.0 ≡ false → (i : ℕ) → i < r.1 → order i ≡ Ordering.lt
  pub above : r.0 ≡ false → (i : ℕ) → r.1 ≤ i → i < n → order i ≡ Ordering.gt

Ordering-cases : (o : Ordering) → (o ≡ Ordering.eq) ⊎ ((o ≡ Ordering.lt) ⊎ (o ≡ Ordering.gt))
Ordering-cases Ordering.eq = inl refl
Ordering-cases Ordering.lt = inr (inl refl)
Ordering-cases Ordering.gt = inr (inr refl)

module _ (order : ℕ → Ordering) (n : ℕ) (rises : Rises order n) where
  search_from-Searched :
      (rounds left end : ℕ)
      → end - left ≤ rounds
      → left ≤ end
      → end ≤ n
      → ((i : ℕ) → i < left → order i ≡ Ordering.lt)
      → ((i : ℕ) → end ≤ i → i < n → order i ≡ Ordering.gt)
      → Searched order n (search_from order rounds left end)
  unfolding search_from
  search_from-Searched zero left end f lo hi b a = record {
    hit = λ h. cc;
    place = λ h. omega arith;
    below = λ h. b;
    above = λ h i l k. a i (omega arith) k;
  }
  search_from-Searched (suc rounds) left end f lo hi b a = elim (Bool-cases (ltb left end)) [
    | inr stop ↦
        let s : search_from order (suc rounds) left end ≡ (false, left) = ground arith in
        subst (Searched order n) (sym s) (record {
          hit = λ h. cc;
          place = λ h. omega arith;
          below = λ h. b;
          above = λ h i l k. a i (ground arith) k;
        })
    | inl go ↦
        let l = ltb→lt left end go in
        let middle = (left + (end - 1)) / 2 in
        elim (Ordering-cases (order middle)) [
          | inl e ↦
              let s : search_from order (suc rounds) left end ≡ (true, middle) = ground arith in
              subst (Searched order n) (sym s) (record {
                hit = λ h. (omega arith, e);
                place = λ h. cc;
                below = λ h. cc;
                above = λ h. cc;
              })
          | inr (inl e) ↦
              let s : search_from order (suc rounds) left end
                  ≡ search_from order rounds (middle + 1) end =
                ground arith in
              subst (Searched order n) (sym s) (
                search_from-Searched rounds (middle + 1) end (omega arith) (omega arith) hi
                  (λ i k. elim (ℕ_discrete i middle) [
                    | yes same ↦ rw same e
                    | no other ↦ rises.lower i middle (omega arith) (omega arith) e
                  ])
                  a)
          | inr (inr e) ↦
              let s : search_from order (suc rounds) left end
                  ≡ search_from order rounds left middle =
                ground arith in
              subst (Searched order n) (sym s) (
                search_from-Searched rounds left middle (omega arith) (omega arith) (omega arith) b
                  (λ i k m. elim (ℕ_discrete i middle) [
                    | yes same ↦ rw same e
                    | no other ↦ rises.upper middle i (omega arith) m e
                  ]))
        ]
  ]

  -- If the entries are in ascending order with respect to what is looked for, the binary search
  -- over all of them ends with the index of an equal entry, or with the index below which all
  -- entries are lower and from which on all are higher.
  pub search-Searched : Searched order n (search_from order n 0 n)
  search-Searched =
      search_from-Searched n 0 n (omega arith) (omega arith) (omega arith) (λ i l. elim l [ ])
        (λ i l k. absurd (omega arith))
