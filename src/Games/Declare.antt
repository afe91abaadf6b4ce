-- ===== src/Games/Declare.antt =====
-- src/games.c: Game_DeclarePolicy and Game_IsAccepted over a sorted list of games.
use mathlib.Core.Bool.{xor}
use mathlib.Core.Path.{ap₂}
use dpmaster_x.Prelude.{
  ℕ, zero, suc, ◌≡◌, refl, sym, ap, ◌∙◌, subst, Bool, true, false, ◌||◌, List, [], ◌∷◌, some, arith,
  Bool-cases, inl, inr,
}
use dpmaster_x.Text.{Text, str_eq}
use dpmaster_x.Text.Order.{strcmp_eq, strcmp_refl, strcmp_swap}
use dpmaster_x.Games.{
  find, insert_at, declare_games, CmdlineStatus, Policy, declare_policy, policy_of, is_accepted,
}
use dpmaster_x.Games.Sorted.{IsSorted, find-Searched, find-listed, listed, name_at}
use dpmaster_x.Games.Insert.{
  Spot, insert_at_before, insert_at_behind, insert_at_here, length-insert_at, spot,
}

listed-insert_at :
    (k : ℕ) (x g : Text) (xs : List Text) → listed g (insert_at k x xs) ≡ str_eq x g || listed g xs
unfolding listed
listed-insert_at zero x g xs = refl
listed-insert_at (suc k) x g [] = refl
listed-insert_at (suc k) x g (y ∷ xs) = ground (arith, listed-insert_at k x g xs)

-- A name that is not in the list is inserted where the search ends.
module _ (names : List Text) (g : Text) (s : IsSorted names) (new : (find names g).0 ≡ false) where
  insert-IsSorted : IsSorted (insert_at (find names g).1 g names)
  unfolding Spot
  insert-IsSorted i j l h =
      let r = find-Searched names g s in
      let k = (find names g).1 in
      let fits = r.place new in
      let size = length-insert_at k g names fits in
      elim (spot k j) [
        | inl jk ↦
            rw
              (
                insert_at_before k i g [] names fits (omega arith),
                insert_at_before k j g [] names fits jk,
              )
              (s i j l (omega arith))
        | inr (inl jk) ↦
            rw
              (
                jk,
                insert_at_before k i g [] names fits (omega arith),
                insert_at_here k g [] names fits,
              )
              (r.below new i (omega arith))
        | inr (inr (j', je, kj)) ↦
            rw (je, insert_at_behind k j' g [] names fits kj)
              (elim (spot k i) [
                | inl ik ↦
                    rw (insert_at_before k i g [] names fits ik)
                      (s i j' (omega arith) (omega arith))
                | inr (inl ik) ↦
                    rw (ik, insert_at_here k g [] names fits)
                      (strcmp_swap (name_at names j') g (r.above new j' kj (omega arith)))
                | inr (inr (i', ie, ki)) ↦
                    rw (ie, insert_at_behind k i' g [] names fits ki)
                      (s i' j' (omega arith) (omega arith))
              ])
      ]

-- The steps of the loop.
declare_games-old :
    (memory : ℕ) (names games : List Text) (game : Text)
    → (find names game).0 ≡ true
    → declare_games memory names (game ∷ games) ≡ declare_games memory names games
unfolding declare_games
declare_games-old memory names games game h = rw (h, declare_games)

declare_games-new :
    (rest : ℕ) (names games : List Text) (game : Text)
    → (find names game).0 ≡ false
    → declare_games (suc rest) names (game ∷ games)
      ≡ declare_games rest (insert_at (find names game).1 game names) games
unfolding declare_games
declare_games-new rest names games game h = rw (h, declare_games)

declare_games-full :
    (names games : List Text) (game : Text)
    → (find names game).0 ≡ false
    → declare_games zero names (game ∷ games) ≡ (names, CmdlineStatus.not_enough_memory)
unfolding declare_games
declare_games-full names games game h = rw (h, declare_games)

abbrev SortedResult : List Text × CmdlineStatus → Type 0
SortedResult r = IsSorted r.0

pub declare_games-IsSorted :
    (memory : ℕ) (names games : List Text)
    → IsSorted names
    → SortedResult (declare_games memory names games)
declare_games-IsSorted memory names [] s = unfold declare_games in s
declare_games-IsSorted zero names (game ∷ games) s = elim (Bool-cases (find names game).0) [
  | inl old ↦
      subst SortedResult (sym (declare_games-old zero names games game old))
        (declare_games-IsSorted zero names games s)
  | inr new ↦ subst SortedResult (sym (declare_games-full names games game new)) s
]
declare_games-IsSorted (suc rest) names (game ∷ games) s = elim (Bool-cases (find names game).0) [
  | inl old ↦
      subst SortedResult (sym (declare_games-old (suc rest) names games game old))
        (declare_games-IsSorted (suc rest) names games s)
  | inr new ↦
      subst SortedResult (sym (declare_games-new rest names games game new))
        (declare_games-IsSorted rest _ games (insert-IsSorted names game s new))
]

-- The result lists the old names and the new ones, unless memory ran out.
abbrev Lists : List Text × CmdlineStatus → Text → Bool → Type 0
Lists r g b = r.1 ≡ CmdlineStatus.ok → listed g r.0 ≡ b

listed_all : Text → List Text → List Text → Bool
listed_all g names games = listed g names || listed g games

all_nil : (g : Text) (names : List Text) → listed g names ≡ listed_all g names []
unfolding listed_all listed
all_nil g names = ground arith

all_old :
    (g game : Text) (names games : List Text)
    → IsSorted names
    → (find names game).0 ≡ true
    → listed_all g names games ≡ listed_all g names (game ∷ games)
unfolding listed_all listed
all_old g game names games s old =
    ground (arith, find-listed names game s, strcmp_eq game g, strcmp_refl g)

all_new :
    (g game : Text) (names games : List Text) (k : ℕ)
    → listed_all g (insert_at k game names) games ≡ listed_all g names (game ∷ games)
unfolding listed_all listed
all_new g game names games k = ground (arith, listed-insert_at k game g names)

declare_games-listed :
    (memory : ℕ) (names games : List Text) (g : Text)
    → IsSorted names
    → Lists (declare_games memory names games) g (listed_all g names games)
declare_games-listed memory names [] g s = unfold declare_games in λ h. all_nil g names
declare_games-listed zero names (game ∷ games) g s = elim (Bool-cases (find names game).0) [
  | inl old ↦
      rw (declare_games-old zero names games game old)
        (λ h. declare_games-listed zero names games g s h ∙ all_old g game names games s old)
  | inr new ↦ rw (declare_games-full names games game new) (λ h. cc)
]
declare_games-listed (suc rest) names (game ∷ games) g s = elim (Bool-cases (find names game).0) [
  | inl old ↦
      rw (declare_games-old (suc rest) names games game old)
        (λ h. declare_games-listed (suc rest) names games g s h ∙ all_old g game names games s old)
  | inr new ↦ rw (declare_games-new rest names games game new) (λ h.
      declare_games-listed rest _ games g (insert-IsSorted names game s new) h
      ∙ all_new g game names games (find names game).1)
]

declare_policy-old :
    (memory : ℕ) (p q : Policy) (policy : Text) (games : List Text) (reject : Bool)
    → policy_of policy ≡ some reject
    → declare_policy memory p policy games ≡ (q, CmdlineStatus.ok)
    → (q.game_names ≡ (declare_games memory p.game_names games).0)
      × ((declare_games memory p.game_names games).1 ≡ CmdlineStatus.ok)
      × (q.reject_when_known ≡ reject)
unfolding declare_policy xor
declare_policy-old memory p q policy games reject e h = ground arith

-- If Game_DeclarePolicy succeeds with the policy "accept" or "reject" on a sorted list of games,
-- the new list is sorted, and Game_IsAccepted accepts a game exactly if it is one of the games
-- listed before and now, under "accept", or none of them, under "reject".
pub declare_policy-is_accepted :
    (memory : ℕ) (p q : Policy) (policy : Text) (games : List Text) (reject : Bool)
    → IsSorted p.game_names
    → policy_of policy ≡ some reject
    → declare_policy memory p policy games ≡ (q, CmdlineStatus.ok)
    → IsSorted q.game_names
      × ((g : Text) → is_accepted q g ≡ xor (listed g p.game_names || listed g games) reject)
unfolding is_accepted listed_all
declare_policy-is_accepted memory p q policy games reject s e h =
    let (names, done, kept) = declare_policy-old memory p q policy games reject e h in
    let sorted : IsSorted q.game_names =
      subst IsSorted (sym names) (declare_games-IsSorted memory p.game_names games s) in
    (
      sorted,
      λ g.
          ap₂ xor
            (find-listed q.game_names g sorted
              ∙ ap (listed g) names
              ∙ declare_games-listed memory p.game_names games g s done)
            kept,
    )
