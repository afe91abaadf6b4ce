-- ===== src/Users/Links.antt =====
-- src/common.c: chains of users as lists, and what a write to a link does to them.
use dpmaster_x.Prelude.{
  ℕ, ◌≡◌, refl, inl, inr, ◌≢◌, Bool, true, false, ◌||◌, Option, none, some, List, [], ◌∷◌, arith,
  ◌==◌, if◌then◌else◌, Bool-cases, ==_iff, subst, sym, ◌∙◌,
}
use dpmaster_x.Users.{Users, Link, entry, next_of, update, set_prev}

abbrev pub mem : ℕ → List ℕ → Bool
mem i [] = false
mem i (x ∷ xs) = i == x || mem i xs

abbrev pub erase : ℕ → List ℕ → List ℕ
erase i [] = []
erase i (x ∷ xs) = if i == x then xs else x ∷ erase i xs

-- Following `next` from `cur` visits `xs`, and ends.
abbrev pub Seg : (ℕ → Option ℕ) → List ℕ → Option ℕ → Type 0
Seg next [] cur = cur ≡ none
Seg next (x ∷ xs) cur = (cur ≡ some x) × Seg next xs (next x)

-- Each `prev_ptr` of `xs` points at the pointer that leads to its user.
abbrev pub Back : (ℕ → Option Link) → List ℕ → Link → Type 0
Back prev [] link = Unit {0}
Back prev (x ∷ xs) link = (prev x ≡ some link) × Back prev xs (next_of x)

abbrev pub Distinct : List ℕ → Type 0
Distinct [] = Unit {0}
Distinct (x ∷ xs) = (mem x xs ≡ false) × Distinct xs

-- The pointers represent these chains, which share no user.
pub record IsTable (u : Users) (chains : ℕ → List ℕ) : Type 0 where
  pub seg : (h : ℕ) → Seg u.next (chains h) (u.entries h)
  pub back : (h : ℕ) → Back u.prev_ptr (chains h) (entry h)
  pub distinct : (h : ℕ) → Distinct (chains h)
  pub disjoint : (h k i : ℕ) → mem i (chains h) ≡ true → mem i (chains k) ≡ true → h ≡ k

pub update_self {ℓ} : {A : Type ℓ} (f : ℕ → A) (k : ℕ) (v : A) → update f k v k ≡ v
update_self f k v = ground arith

pub Seg-update :
    (next : ℕ → Option ℕ) (i : ℕ) (v : Option ℕ) (xs : List ℕ) (cur : Option ℕ)
    → mem i xs ≡ false
    → Seg next xs cur
    → Seg (update next i v) xs cur
Seg-update next i v [] cur n s = s
Seg-update next i v (x ∷ xs) cur n s =
    let e : update next i v x ≡ next x = ground arith in
    (s.0, rw e (Seg-update next i v xs (next x) (ground arith) s.1))

pub Back-update :
    (prev : ℕ → Option Link) (i : ℕ) (v : Option Link) (xs : List ℕ) (link : Link)
    → mem i xs ≡ false
    → Back prev xs link
    → Back (update prev i v) xs link
Back-update prev i v [] link n s = s
Back-update prev i v (x ∷ xs) link n s =
    (ground arith, Back-update prev i v xs (next_of x) (ground arith) s.1)

pub Back-set_prev :
    (prev : ℕ → Option Link) (o : Option ℕ) (v : Option Link) (xs : List ℕ) (link : Link)
    → ((j : ℕ) → o ≡ some j → mem j xs ≡ false)
    → Back prev xs link
    → Back (set_prev o v prev) xs link
Back-set_prev prev none v xs link n s = s
Back-set_prev prev (some j) v xs link n s = Back-update prev j v xs link (n j refl) s

pub set_prev_apart :
    (prev : ℕ → Option Link) (o : Option ℕ) (v : Option Link) (y : ℕ)
    → ((j : ℕ) → o ≡ some j → y ≢ j)
    → set_prev o v prev y ≡ prev y
set_prev_apart prev none v y n = refl
set_prev_apart prev (some j) v y n = ground (arith, n j)

-- The user behind `i` stands behind it in the chain.
pub Seg-next :
    (next : ℕ → Option ℕ) (i j x : ℕ) (xs : List ℕ)
    → Seg next xs (next x)
    → mem i (x ∷ xs) ≡ true
    → next i ≡ some j
    → mem j xs ≡ true
Seg-next next i j x [] s m e = ground arith
Seg-next next i j x (y ∷ ys) s m e = ground (arith, Seg-next next i j y ys s.1)

pub mem-erase : (i j : ℕ) (xs : List ℕ) → mem j xs ≡ false → mem j (erase i xs) ≡ false
mem-erase i j [] n = refl
mem-erase i j (x ∷ xs) n = ground (arith, mem-erase i j xs)

pub Distinct-erase : (i : ℕ) (xs : List ℕ) → Distinct xs → Distinct (erase i xs)
Distinct-erase i [] d = d
Distinct-erase i (x ∷ xs) d = ground (arith, Distinct-erase i xs, mem-erase i x xs)

-- What becomes the first user of a chain gets a new link.
pub Back-relink :
    (next : ℕ → Option ℕ) (prev : ℕ → Option Link) (o : Option ℕ) (old link : Link) (xs : List ℕ)
    → Seg next xs o
    → Back prev xs old
    → Distinct xs
    → Back (set_prev o (some link) prev) xs link
Back-relink next prev o old link [] s b d = tt
Back-relink next prev o old link (x ∷ xs) s b d =
    subst (λ o. Back (set_prev o (some link) prev) (x ∷ xs) link) (sym s.0)
      (ground arith, Back-update prev x (some link) xs (next_of x) d.0 b.1)

pub Seg-first :
    (next : ℕ → Option ℕ) (xs : List ℕ) (o : Option ℕ) (j : ℕ)
    → Seg next xs o
    → o ≡ some j
    → mem j xs ≡ true
Seg-first next [] o j s e = cc
Seg-first next (x ∷ xs) o j s e = ground arith

module _ (next : ℕ → Option ℕ) (prev : ℕ → Option Link) (i : ℕ) where
  -- Removing a user behind the first one, `p` being the user before it.
  pub record Unlinked (p x : ℕ) (xs : List ℕ) : Type 0 where
    pub inside : mem p (x ∷ xs) ≡ true
    pub seg : Seg (update next p (next i)) (erase i xs) (update next p (next i) x)
    pub back : Back (set_prev (next i) (some (next_of p)) prev) (erase i xs) (next_of x)

  pub unlink :
      (p x : ℕ) (xs : List ℕ)
      → prev i ≡ some (next_of p)
      → Seg next xs (next x)
      → Back prev xs (next_of x)
      → Distinct (x ∷ xs)
      → mem i xs ≡ true
      → Unlinked p x xs
  unlink p x [] e s b d m = cc
  unlink p x (y ∷ ys) e s b d m = elim (Bool-cases (i == y)) [
    | inl same ↦
        let ei : i ≡ y = (==_iff i y).0 same in
        let ep : x ≡ p = ground arith in
        record {
          inside = ground arith;
          seg =
              rw (same, ← ep, update_self next x (next i))
                (Seg-update next x (next i) ys (next i) (ground arith) (rw ei s.1));
          back =
              rw (same, ← ep)
                (Back-relink next prev (next i) (next_of i) (next_of x) ys (rw ei s.1) (rw ei b.1)
                  d.1.1);
        }
    | inr other ↦
        let r = unlink p y ys e s.1 b.1 d.1 (ground arith) in
        let apart : update next p (next i) x ≡ next x = ground (arith, r.inside) in
        record {
          inside = ground (arith, r.inside);
          seg = rw (other, apart) (s.0, r.seg);
          back = rw other (
            set_prev_apart prev (next i) (some (next_of p)) y
                  (λ j f. ground (arith, Seg-next next i j y ys s.1 m f))
                ∙ b.0,
            r.back,
          );
        }
  ]
