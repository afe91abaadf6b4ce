-- ===== src/Users/Chains.antt =====
-- The linked chains against lists of users: adding is consing, and removing is erasing.
use dpmaster_x.Prelude.{
  ℕ, ◌≡◌, refl, inl, inr, ◌≢◌, true, false, Option, some, List, [], ◌∷◌, arith, ◌==◌, Bool-cases,
  ==_iff, subst, ◌∙◌,
}
use dpmaster_x.Users.{Users, Link, entry, next_of, update, set_prev, init, add, remove}
use dpmaster_x.Users.Links.{
  Back, Back-relink, Back-set_prev, Back-update, Distinct, Distinct-erase, IsTable, Seg, Seg-first,
  Seg-next, Seg-update, erase, mem, set_prev_apart, unlink, update_self,
}

-- The cleared table represents the empty chains.
pub init-IsTable : IsTable init (λ h. [])
unfolding init
init-IsTable = record {
  seg = λ h. refl;
  back = λ h. tt;
  distinct = λ h. tt;
  disjoint = λ h k i a b. cc;
}

module _ {u : Users} {chains : ℕ → List ℕ} (t : IsTable u chains) (h i : ℕ) where
  -- If the links of a user hash table represent chains, and a user is in no chain, then after
  -- Com_UserHashTable_Add the links represent the same chains with that user in front of the
  -- chain of its hash.
  pub add-IsTable :
      ((k : ℕ) → mem i (chains k) ≡ false) → IsTable (add u i h) (update chains h (i ∷ chains h))
  unfolding add
  add-IsTable fresh = record {
    seg = λ k. elim (Bool-cases (k == h)) [
      | inl same ↦
          rw (same, update_self u.next i (u.entries h))
            (refl, Seg-update u.next i (u.entries h) (chains h) (u.entries h) (fresh h) (t.seg h))
      | inr other ↦
          rw other (Seg-update u.next i (u.entries h) (chains k) (u.entries k) (fresh k) (t.seg k))
    ];
    back = λ k. elim (Bool-cases (k == h)) [
      | inl same ↦
          let ek : k ≡ h = (==_iff k h).0 same in
          rw (same, ek)
            (
              set_prev_apart (update u.prev_ptr i (some (entry h))) (u.entries h) (some (next_of i))
                    i (λ j f. ground (arith, first j f, fresh h))
                  ∙ update_self u.prev_ptr i (some (entry h)),
              Back-relink u.next (update u.prev_ptr i (some (entry h))) (u.entries h) (entry h)
                  (next_of i) (chains h) (t.seg h) (kept h) (t.distinct h),
            )
      | inr other ↦ rw other (
          Back-set_prev (update u.prev_ptr i (some (entry h))) (u.entries h) (some (next_of i))
            (chains k) (entry k) (λ j f. ground (arith, first j f, t.disjoint h k j)) (kept k))
    ];
    distinct = λ k. ground (arith, t.distinct k, t.distinct h, fresh h);
    disjoint = λ k l j a b.
        ground (arith, t.disjoint k l j, t.disjoint h l j, t.disjoint k h j, fresh k, fresh l);
  }
    where
      first : (j : ℕ) → u.entries h ≡ some j → mem j (chains h) ≡ true
      first j f = Seg-first u.next (chains h) (u.entries h) j (t.seg h) f

      kept : (k : ℕ) → Back (update u.prev_ptr i (some (entry h))) (chains k) (entry k)
      kept k = Back-update u.prev_ptr i (some (entry h)) (chains k) (entry k) (fresh k) (t.back k)

pub erase-mem : (i j : ℕ) (xs : List ℕ) → mem j (erase i xs) ≡ true → mem j xs ≡ true
erase-mem i j [] n = n
erase-mem i j (x ∷ xs) n = ground (arith, erase-mem i j xs)

remove-entry :
    (u : Users) (i h : ℕ)
    → u.prev_ptr i ≡ some (entry h)
    → remove u i ≡ record {
      entries = update u.entries h (u.next i);
      next = u.next;
      prev_ptr = set_prev (u.next i) (some (entry h)) u.prev_ptr;
    }
unfolding remove
remove-entry u i h e = rw (e, e)

remove-next_of :
    (u : Users) (i p : ℕ)
    → u.prev_ptr i ≡ some (next_of p)
    → remove u i ≡ record {
      entries = u.entries;
      next = update u.next p (u.next i);
      prev_ptr = set_prev (u.next i) (some (next_of p)) u.prev_ptr;
    }
unfolding remove
remove-next_of u i p e =
    let same : update u.next p (u.next i) i ≡ u.next i = ground arith in rw (e, same, e)

-- Where a user of a chain stands: first, or behind a user of the chain.
stands :
    (next : ℕ → Option ℕ) (prev : ℕ → Option Link) (i x : ℕ) (xs : List ℕ)
    → Back prev xs (next_of x)
    → mem i xs ≡ true
    → (p : ℕ) × (prev i ≡ some (next_of p))
stands next prev i x [] b m = cc
stands next prev i x (y ∷ ys) b m = elim (Bool-cases (i == y)) [
  | inl same ↦ (x, rw ((==_iff i y).0 same) b.0)
  | inr other ↦ stands next prev i y ys b.1 (ground arith)
]

-- A user is taken out of one chain: what has to be shown of that chain, and of the links written.
module _ {u v : Users} {chains : ℕ → List ℕ} (t : IsTable u chains) (h i : ℕ) where
  taken-IsTable :
      Seg v.next (erase i (chains h)) (v.entries h)
      → Back v.prev_ptr (erase i (chains h)) (entry h)
      → ((k : ℕ) → k ≢ h → Seg v.next (chains k) (v.entries k))
      → ((k : ℕ) → k ≢ h → Back v.prev_ptr (chains k) (entry k))
      → IsTable v (update chains h (erase i (chains h)))
  taken-IsTable s b s' b' = record {
    seg = λ k. elim (Bool-cases (k == h)) [
      | inl same ↦ rw (same, (==_iff k h).0 same) s
      | inr other ↦ rw other (s' k (ground arith))
    ];
    back = λ k. elim (Bool-cases (k == h)) [
      | inl same ↦ rw (same, (==_iff k h).0 same) b
      | inr other ↦ rw other (b' k (ground arith))
    ];
    distinct = λ k. ground (arith, t.distinct k, Distinct-erase i (chains h) (t.distinct h));
    disjoint = λ k l j a b.
        ground
          (arith, t.disjoint k l j, t.disjoint h l j, t.disjoint k h j, erase-mem i j (chains h));
  }

module _ {u : Users} {chains : ℕ → List ℕ} (t : IsTable u chains) (h i : ℕ) where
  -- The user behind `i` is in no other chain.
  elsewhere :
      mem i (chains h) ≡ true → (k j : ℕ) → k ≢ h → u.next i ≡ some j → mem j (chains k) ≡ false
  elsewhere m k j n f =
      ground (arith, t.disjoint h k j, behind (chains h) (u.entries h) (t.seg h) m)
    where
      behind :
          (xs : List ℕ) (cur : Option ℕ) → Seg u.next xs cur → mem i xs ≡ true → mem j xs ≡ true
      behind [] cur s m = cc
      behind (x ∷ xs) cur s m = ground (arith, Seg-next u.next i j x xs s.1 m f)

  Back-elsewhere :
      (link : Link)
      → mem i (chains h) ≡ true
      → (k : ℕ) → k ≢ h
      → Back (set_prev (u.next i) (some link) u.prev_ptr) (chains k) (entry k)
  Back-elsewhere link m k n =
      Back-set_prev u.prev_ptr (u.next i) (some link) (chains k) (entry k)
        (λ j f. elsewhere m k j n f) (t.back k)

  remove_cases :
      (xs : List ℕ)
      → chains h ≡ xs
      → mem i xs ≡ true
      → IsTable (remove u i) (update chains h (erase i (chains h)))
  remove_cases [] e m = cc
  remove_cases (x ∷ xs) e m =
      let s : Seg u.next (x ∷ xs) (u.entries h) =
        subst (λ l. Seg u.next l (u.entries h)) e (t.seg h) in
      let b : Back u.prev_ptr (x ∷ xs) (entry h) =
        subst (λ l. Back u.prev_ptr l (entry h)) e (t.back h) in
      let d : Distinct (x ∷ xs) = subst Distinct e (t.distinct h) in
      let here : mem i (chains h) ≡ true = rw e m in
      elim (Bool-cases (i == x)) [
        | inl same ↦
            let ei : i ≡ x = (==_iff i x).0 same in
            rw (remove-entry u i h (rw ei b.0)) (
              taken-IsTable t h i (rw (e, same, update_self u.entries h (u.next i)) (rw ei s.1))
                (rw (e, same)
                  (Back-relink u.next u.prev_ptr (u.next i) (next_of i) (entry h) xs (rw ei s.1)
                    (rw ei b.1) d.1))
                (λ k n.
                  let f : update u.entries h (u.next i) k ≡ u.entries k = ground arith in
                  rw f (t.seg k))
                (Back-elsewhere (entry h) here))
        | inr other ↦
            let (p, at) = stands u.next u.prev_ptr i x xs b.1 (ground arith) in
            let r = unlink u.next u.prev_ptr i p x xs at s.1 b.1 d (ground arith) in
            rw (remove-next_of u i p at) (
              taken-IsTable t h i (rw (e, other) (s.0, r.seg))
                (rw (e, other)
                  (
                    set_prev_apart u.prev_ptr (u.next i) (some (next_of p)) x
                          (λ j f. ground (arith, Seg-next u.next i j x xs s.1 m f))
                        ∙ b.0,
                    r.back,
                  ))
                (λ k n.
                  Seg-update u.next p (u.next i) (chains k) (u.entries k)
                    (ground (arith, t.disjoint h k p, r.inside)) (t.seg k))
                (Back-elsewhere (next_of p) here))
      ]

  -- If the links of a user hash table represent chains, and a user is in the chain of a hash,
  -- then after Com_UserHashTable_Remove the links represent the same chains with that user
  -- erased.
  pub remove-IsTable :
      mem i (chains h) ≡ true → IsTable (remove u i) (update chains h (erase i (chains h)))
  remove-IsTable m = remove_cases (chains h) refl m
