-- ===== src/Properties/Protocols.antt =====
-- src/games.c: the sorted array of protocols, and the owners of protocol numbers.
pub mod Add
use Prim.Native.Nat.{Ordering}
use native.Mathlib.Decide.{ℕ_discrete, dec_lt}
use dpmaster_x.Prelude.{
  ℕ, zero, suc, ◌+◌, ◌-◌, ◌≤◌, ◌<◌, ◌≡◌, refl, sym, ap, ◌∙◌, subst, ◌≢◌, Bool, true, false, ◌||◌,
  List, [], ◌∷◌, ◌++◌, Option, none, some, length, get_or, set, take, drop, arith, Bool-cases,
  Option-cases, ◌↔◌, ◌⊎◌, inl, inr, ℤ, pos, eqb_ℤ, ltb_ℤ, if◌then◌else◌, eq_of_parts, pos_part,
  neg_part, get_or-set_self, get_or-set_ne, length-set,
}
use dpmaster_x.Text.{Text}
use dpmaster_x.Games.{insert_at, CmdlineStatus}
use dpmaster_x.Games.CmdlineStatus.{ok, not_enough_memory}
use dpmaster_x.Games.Search.{Rises, Searched, search-Searched}
use dpmaster_x.Games.Insert.{
  insert_at_before, insert_at_here, insert_at_behind, Spot, spot, length-insert_at,
}
use dpmaster_x.Properties.{Registry, order_ℤ, assoc_at, find_anonymous, add_protocol}

abbrev pub key : List (ℤ × Text) → ℕ → ℤ
key protocols i = (assoc_at protocols i).0

-- Strictly ascending.
abbrev pub IsAscending : List (ℤ × Text) → Type 0
IsAscending protocols =
    (i j : ℕ) → i < j → j < length protocols → ltb_ℤ (key protocols i) (key protocols j) ≡ true

-- The owner of a protocol number, as the handlers look it up.
pub owner : List (ℤ × Text) → ℤ → Option Text
owner protocols p =
    let found = find_anonymous protocols p in
    if found.0 then some (assoc_at protocols found.1).1 else none

pub order_ℤ_lt : (a b : ℤ) → (order_ℤ a b ≡ Ordering.lt) ↔ (ltb_ℤ a b ≡ true)
unfolding order_ℤ
order_ℤ_lt a b = ground arith

pub order_ℤ_gt : (a b : ℤ) → (order_ℤ a b ≡ Ordering.gt) ↔ (ltb_ℤ b a ≡ true)
unfolding order_ℤ
order_ℤ_gt a b = ground arith

pub order_ℤ_eq : (a b : ℤ) → (order_ℤ a b ≡ Ordering.eq) ↔ (a ≡ b)
unfolding order_ℤ
order_ℤ_eq a b = ground (arith, eq_of_parts a b)

ltb_ℤ_trans : (a b c : ℤ) → ltb_ℤ a b ≡ true → ltb_ℤ b c ≡ true → ltb_ℤ a c ≡ true
ltb_ℤ_trans a b c h k = ground arith

pub find_anonymous-Searched :
    (protocols : List (ℤ × Text)) (p : ℤ)
    → IsAscending protocols
    → Searched (λ i. order_ℤ (key protocols i) p) (length protocols) (find_anonymous protocols p)
unfolding find_anonymous
find_anonymous-Searched protocols p s = search-Searched _ (length protocols) (record {
  lower = λ i j l k e. (order_ℤ_lt (key protocols i) p).1 (
      ltb_ℤ_trans (key protocols i) (key protocols j) p (s i j l k)
        ((order_ℤ_lt (key protocols j) p).0 e));
  upper = λ i j l k e. (order_ℤ_gt (key protocols j) p).1 (
      ltb_ℤ_trans p (key protocols i) (key protocols j) ((order_ℤ_gt (key protocols i) p).0 e)
        (s i j l k));
})

-- A number that the search does not find is that of no entry.
pub find_anonymous_missing :
    (protocols : List (ℤ × Text)) (p : ℤ) (i : ℕ)
    → IsAscending protocols
    → (find_anonymous protocols p).0 ≡ false
    → i < length protocols
    → key protocols i ≢ p
find_anonymous_missing protocols p i s missing l e =
    let r = find_anonymous-Searched protocols p s in
    elim (dec_lt i (find_anonymous protocols p).1) [
      | yes b ↦ absurd (ground (arith, r.below missing i b, (order_ℤ_eq (key protocols i) p).1 e))
      | no b ↦
          absurd (
            ground (arith, r.above missing i (omega arith) l, (order_ℤ_eq (key protocols i) p).1 e))
    ]

owner_at :
    (protocols : List (ℤ × Text)) (p : ℤ) (i : ℕ)
    → IsAscending protocols
    → i < length protocols
    → key protocols i ≡ p
    → owner protocols p ≡ some (assoc_at protocols i).1
unfolding owner
owner_at protocols p i s l e =
    let r = find_anonymous-Searched protocols p s in
    let h = (find_anonymous protocols p).1 in
    elim (Bool-cases (find_anonymous protocols p).0) [
      | inl found ↦
          let k = (order_ℤ_eq (key protocols h) p).0 (r.hit found).1 in
          rw (found) (ap (λ j. some (assoc_at protocols j).1) (same h (r.hit found).0 k))
      | inr missing ↦ absurd (find_anonymous_missing protocols p i s missing l e)
    ]
  where
    same : (h : ℕ) → h < length protocols → key protocols h ≡ p → h ≡ i
    same h m k = elim (dec_lt h i) [
      | yes b ↦ absurd (ground (arith, s h i b l, k, e))
      | no b ↦ elim (dec_lt i h) [
        | yes c ↦ absurd (ground (arith, s i h c m, k, e))
        | no c ↦ omega arith
      ]
    ]

owner_missing :
    (protocols : List (ℤ × Text)) (p : ℤ)
    → IsAscending protocols
    → ((i : ℕ) → i < length protocols → key protocols i ≢ p)
    → owner protocols p ≡ none
unfolding owner
owner_missing protocols p s n = elim (Bool-cases (find_anonymous protocols p).0) [
  | inl found ↦
      let r = find_anonymous-Searched protocols p s in
      absurd (n _ (r.hit found).0 ((order_ℤ_eq _ p).0 (r.hit found).1))
  | inr missing ↦ rw (missing) refl
]

-- The entries of the new array are the old ones but for one number, which has a new owner.
pub record IsUpdate (old new : List (ℤ × Text)) (p : ℤ) (game : Text) : Type 0 where
  pub sorted : IsAscending new
  pub written : (k : ℕ) × (k < length new) × (assoc_at new k ≡ (p, game))
  pub kept :
      (i : ℕ)
      → i < length old
      → key old i ≢ p
      → (j : ℕ) × (j < length new) × (assoc_at new j ≡ assoc_at old i)
  pub only :
      (j : ℕ)
      → j < length new
      → (assoc_at new j ≡ (p, game))
        ⊎ ((i : ℕ) × (i < length old) × (assoc_at old i ≡ assoc_at new j))

pub owner-IsUpdate :
    (old new : List (ℤ × Text)) (p q : ℤ) (game : Text)
    → IsAscending old
    → IsUpdate old new p game
    → owner new q ≡ (if eqb_ℤ q p then some game else owner old q)
owner-IsUpdate old new p q game s u = elim (Bool-cases (eqb_ℤ q p)) [
  | inl same ↦
      let (k, l, e) = u.written in
      let qp : q ≡ p = eq_of_parts q p (ground arith) in
      rw (same) (owner_at new q k u.sorted l (ap (λ a. a.0) e ∙ sym qp) ∙ ap (λ a. some a.1) e)
  | inr other ↦
      let r = find_anonymous-Searched old q s in
      let i = (find_anonymous old q).1 in
      elim (Bool-cases (find_anonymous old q).0) [
        | inl found ↦
            let at : key old i ≡ q = (order_ℤ_eq (key old i) q).0 (r.hit found).1 in
            let (j, l, e) = u.kept i (r.hit found).0 (λ h. ground (arith, at, h, other)) in
            rw (other) (
              owner_at new q j u.sorted l (ap (λ a. a.0) e ∙ at)
              ∙ ap (λ a. some a.1) e
              ∙ sym (owner_at old q i s (r.hit found).0 at))
        | inr missing ↦ rw (other) (
            owner_missing new q u.sorted (λ j l e. elim (u.only j l) [
              | inl w ↦ ground (arith, e, ap (λ a. a.0) w, other)
              | inr (i, m, w) ↦ find_anonymous_missing old q i s missing m (ap (λ a. a.0) w ∙ e)
            ])
            ∙ sym (owner_missing old q s (λ i m. find_anonymous_missing old q i s missing m)))
      ]
]
