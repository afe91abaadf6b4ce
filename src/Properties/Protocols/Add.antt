-- ===== src/Properties/Protocols/Add.antt =====
-- src/games.c: Game_AddProtocol and the owners of protocol numbers.
use native.Mathlib.Decide.{ℕ_discrete, dec_lt}
use dpmaster_x.Prelude.{
  ℕ, suc, ◌≤◌, ◌<◌, ◌≡◌, refl, sym, ap, ◌∙◌, subst, true, false, List, [], some, length, set, arith,
  Bool-cases, Option-cases, inl, inr, ℤ, pos, eqb_ℤ, ltb_ℤ, if◌then◌else◌, get_or-set_self,
  get_or-set_ne, length-set,
}
use dpmaster_x.Text.{Text}
use dpmaster_x.Games.{insert_at}
use dpmaster_x.Games.CmdlineStatus.{ok, not_enough_memory}
use dpmaster_x.Games.Search.{Searched}
use dpmaster_x.Games.Insert.{
  insert_at_before, insert_at_here, insert_at_behind, Spot, spot, length-insert_at,
}
use dpmaster_x.Properties.{Registry, alloc, order_ℤ, find_anonymous, add_protocol}
use dpmaster_x.Properties.Protocols.{
  key, IsAscending, owner, find_anonymous-Searched, IsUpdate, owner-IsUpdate, order_ℤ_eq,
  order_ℤ_lt, order_ℤ_gt,
}

set-IsUpdate :
    (old : List (ℤ × Text)) (p : ℤ) (game : Text)
    → IsAscending old
    → (find_anonymous old p).0 ≡ true
    → IsUpdate old (set old (find_anonymous old p).1 (p, game)) p game
set-IsUpdate old p game s found = record {
  sorted = λ i j l m. rw (same i, same j) (s i j l (omega (arith, size)));
  written = (k, omega (arith, inside, size), get_or-set_self old k (p, game) (pos 0, []) inside);
  kept = λ i l n. (
    i,
    omega (arith, l, size),
    get_or-set_ne old k i (p, game) (pos 0, []) (λ e. n (ap (key old) (sym e) ∙ at)),
  );
  only = λ j l. elim (ℕ_discrete k j) [
    | yes e ↦ inl (rw (← e) (get_or-set_self old k (p, game) (pos 0, []) inside))
    | no n ↦ inr (j, omega (arith, size, l), sym (get_or-set_ne old k j (p, game) (pos 0, []) n))
  ];
}
  where
    k : ℕ
    k = (find_anonymous old p).1

    inside : k < length old
    inside = ((find_anonymous-Searched old p s).hit found).0

    at : key old k ≡ p
    at = (order_ℤ_eq (key old k) p).0 ((find_anonymous-Searched old p s).hit found).1

    size : length (set old k (p, game)) ≡ length old
    size = length-set old k (p, game)

    same : (i : ℕ) → key (set old k (p, game)) i ≡ key old i
    same i = elim (ℕ_discrete k i) [
      | yes e ↦
          rw (← e) (ap (λ a. a.0) (get_or-set_self old k (p, game) (pos 0, []) inside) ∙ sym at)
      | no n ↦ ap (λ a. a.0) (get_or-set_ne old k i (p, game) (pos 0, []) n)
    ]

insert-IsUpdate :
    (old : List (ℤ × Text)) (p : ℤ) (game : Text)
    → IsAscending old
    → (find_anonymous old p).0 ≡ false
    → IsUpdate old (insert_at (find_anonymous old p).1 (p, game) old) p game
unfolding Spot
insert-IsUpdate old p game s missing = record {
  sorted = ascending;
  written = (k, omega (arith, size, fits), insert_at_here k (p, game) (pos 0, []) old fits);
  kept = λ i l n. elim (dec_lt i k) [
    | yes b ↦ (i, omega (arith, size), insert_at_before k i (p, game) (pos 0, []) old fits b)
    | no b ↦ (
      suc i,
      omega (arith, size),
      insert_at_behind k i (p, game) (pos 0, []) old fits (omega arith),
    )
  ];
  only = λ j l. elim (spot k j) [
    | inl b ↦
        inr (j, omega (arith, fits), sym (insert_at_before k j (p, game) (pos 0, []) old fits b))
    | inr (inl e) ↦ inl (rw (e) (insert_at_here k (p, game) (pos 0, []) old fits))
    | inr (inr (j', e, b)) ↦ inr (
      j',
      omega (arith, size),
      rw (e) (sym (insert_at_behind k j' (p, game) (pos 0, []) old fits b)),
    )
  ];
}
  where
    r : Searched (λ i. order_ℤ (key old i) p) (length old) (find_anonymous old p)
    r = find_anonymous-Searched old p s

    k : ℕ
    k = (find_anonymous old p).1

    fits : k ≤ length old
    fits = r.place missing

    size : length (insert_at k (p, game) old) ≡ suc (length old)
    size = length-insert_at k (p, game) old fits

    new : List (ℤ × Text)
    new = insert_at k (p, game) old

    before : (i : ℕ) → i < k → key new i ≡ key old i
    before i b = ap (λ a. a.0) (insert_at_before k i (p, game) (pos 0, []) old fits b)

    here : key new k ≡ p
    here = ap (λ a. a.0) (insert_at_here k (p, game) (pos 0, []) old fits)

    behind : (i : ℕ) → k ≤ i → key new (suc i) ≡ key old i
    behind i b = ap (λ a. a.0) (insert_at_behind k i (p, game) (pos 0, []) old fits b)

    lower : (i : ℕ) → i < k → ltb_ℤ (key old i) p ≡ true
    lower i b = (order_ℤ_lt (key old i) p).0 (r.below missing i b)

    upper : (i : ℕ) → k ≤ i → i < length old → ltb_ℤ p (key old i) ≡ true
    upper i b l = (order_ℤ_gt (key old i) p).0 (r.above missing i b l)

    ascending : IsAscending new
    ascending i j l m = elim (spot k j) [
      | inl jk ↦ rw (before i (omega arith), before j jk) (s i j l (omega (arith, fits)))
      | inr (inl jk) ↦ rw (jk, here, before i (omega arith)) (lower i (omega arith))
      | inr (inr (j', je, kj)) ↦
          rw (je, behind j' kj)
            (elim (spot k i) [
              | inl ik ↦ rw (before i ik) (s i j' (omega arith) (omega (arith, size)))
              | inr (inl ik) ↦ rw (ik, here) (upper j' kj (omega (arith, size)))
              | inr (inr (i', ie, ki)) ↦
                  rw (ie, behind i' ki) (s i' j' (omega arith) (omega (arith, size)))
            ])
    ]

-- If Game_AddProtocol succeeds on a strictly ascending array of protocols, the array is strictly
-- ascending afterwards, and the look-up finds the game as the owner of the protocol and the same
-- owner as before for every other protocol.
pub add_protocol-owner :
    (r r' : Registry) (game : Text) (p : ℤ)
    → IsAscending r.protocols
    → add_protocol r game p ≡ (r', ok)
    → IsAscending r'.protocols
      × ((q : ℤ) → owner r'.protocols q ≡ (if eqb_ℤ q p then some game else owner r.protocols q))
unfolding add_protocol
add_protocol-owner r r' game p s h = elim (Bool-cases (find_anonymous r.protocols p).0) [
  | inl found ↦
      let run : add_protocol r game p ≡ (
        record r { protocols = set r.protocols (find_anonymous r.protocols p).1 (p, game) },
        ok,
      ) =
        rw (found, add_protocol) refl in
      updated (set r.protocols (find_anonymous r.protocols p).1 (p, game))
        (ap (λ x. x.0.protocols) (sym run ∙ h)) (set-IsUpdate r.protocols p game s found)
  | inr missing ↦ elim (Option-cases (alloc r)) [
    | inl full ↦
        let run : add_protocol r game p ≡ (r, not_enough_memory) =
          rw (missing, full, add_protocol) refl in
        cc
    | inr (r1, e) ↦
        let run : add_protocol r game p ≡ (
          record r1 {
            protocols = insert_at (find_anonymous r.protocols p).1 (p, game) r.protocols;
          },
          ok,
        ) =
          rw (missing, e, add_protocol) refl in
        updated (insert_at (find_anonymous r.protocols p).1 (p, game) r.protocols)
          (ap (λ x. x.0.protocols) (sym run ∙ h)) (insert-IsUpdate r.protocols p game s missing)
  ]
]
  where
    updated :
        (new : List (ℤ × Text))
        → new ≡ r'.protocols
        → IsUpdate r.protocols new p game
        → IsAscending r'.protocols
          × ((q : ℤ)
              → owner r'.protocols q ≡ (if eqb_ℤ q p then some game else owner r.protocols q))
    updated new e u =
        subst
          (λ x.
            IsAscending x
            × ((q : ℤ) → owner x q ≡ (if eqb_ℤ q p then some game else owner r.protocols q)))
          e (u.sorted, λ q. owner-IsUpdate r.protocols new p q game s u)
