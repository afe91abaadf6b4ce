-- ===== src/Servers/Slots/Indexed.antt =====
-- src/servers.c: the chains of the hash table hold the servers in use.
use native.Mathlib.Decide.{ℕ_discrete}
use dpmaster_x.Prelude.{
  ◌<◌, length, get_or-set_self, get_or-set_ne, ℕ, ◌≡◌, ◌≢◌, refl, sym, ◌∙◌, inl, inr, true, false,
  List, [], ◌∷◌, arith, ◌==◌, if◌then◌else◌, Bool-cases, ==_iff, subst,
}
use dpmaster_x.Address.{address_hash}
use dpmaster_x.Users.{update}
use dpmaster_x.Users.Links.{IsTable, mem, erase, Distinct}
use dpmaster_x.Users.Chains.{add-IsTable, remove-IsTable, erase-mem}
use dpmaster_x.Servers.{Server, Servers, server_at, remove, unused_slot, cleared}
use dpmaster_x.Servers.Lookup.{move_on_top}
use dpmaster_x.Servers.Slots.{is_unused_at, is_unused_at-set, used-lt}

-- The hash of the address of a slot.
abbrev pub hash_at : Servers → ℕ → ℕ
hash_at s i = address_hash s.hash_ports (server_at s i).address s.sv_hash_size

-- The links represent chains, whose servers are in use and stand at the hash of their address, and
-- each server in use stands there.
pub record IsIndexed (s : Servers) (chains : ℕ → List ℕ) : Type 0 where
  pub table : IsTable s.users chains
  pub within :
      (h i : ℕ) → mem i (chains h) ≡ true → (is_unused_at s.servers i ≡ false) × (hash_at s i ≡ h)
  pub filed : (i : ℕ) → is_unused_at s.servers i ≡ false → mem i (chains (hash_at s i)) ≡ true

abbrev pub Indexed : Servers → Type 0
Indexed s = (chains : ℕ → List ℕ) × IsIndexed s chains

pub mem-erase_self : (i : ℕ) (xs : List ℕ) → Distinct xs → mem i (erase i xs) ≡ false
mem-erase_self i [] d = refl
mem-erase_self i (x ∷ xs) d = ground (arith, mem-erase_self i xs)

mem-erase_other : (i j : ℕ) (xs : List ℕ) → j ≢ i → mem j (erase i xs) ≡ mem j xs
mem-erase_other i j [] n = refl
mem-erase_other i j (x ∷ xs) n = ground (arith, mem-erase_other i j xs)

-- A server taken out of its chain and put in front of it.
unfoldable pub moved : (ℕ → List ℕ) → ℕ → ℕ → ℕ → List ℕ
moved chains h i = let taken = update chains h (erase i (chains h)) in update taken h (i ∷ taken h)

mem-moved :
    (chains : ℕ → List ℕ) (h i k j : ℕ)
    → mem i (chains h) ≡ true
    → mem j (moved chains h i k) ≡ mem j (chains k)
unfolding moved
mem-moved chains h i k j m = ground (arith, mem-erase_other i j (chains h), m)

pub move_on_top-IsIndexed :
    (s : Servers) (chains : ℕ → List ℕ) (h i : ℕ)
    → IsIndexed s chains
    → mem i (chains h) ≡ true
    → IsIndexed (move_on_top s i h) (moved chains h i)
unfolding move_on_top moved
move_on_top-IsIndexed s chains h i x m = record {
  table = add-IsTable (remove-IsTable x.table h i m) h i (λ k.
      ground (arith, mem-erase_self i (chains h) (x.table.distinct h), x.table.disjoint h k i m));
  within = λ k j n. x.within k j (sym (mem-moved chains h i k j m) ∙ n);
  filed = λ j u. mem-moved chains h i (hash_at s j) j m ∙ x.filed j u;
}

-- The others stay in their chains.
pub taken-stays :
    (chains : ℕ → List ℕ) (h i j k : ℕ)
    → j ≢ i
    → mem j (chains k) ≡ true
    → mem j (update chains h (erase i (chains h)) k) ≡ true
taken-stays chains h i j k n m = elim (Bool-cases (k == h)) [
  | inl same ↦ rw (same, mem-erase_other i j (chains h) n) (rw (← (==_iff k h).0 same) m)
  | inr other ↦ rw (other) m
]

-- A server that is no longer in use leaves its chain.
pub remove-IsIndexed :
    (s : Servers) (i : ℕ) (chains : ℕ → List ℕ)
    → IsIndexed s chains
    → is_unused_at s.servers i ≡ false
    → IsIndexed (remove s i) (update chains (hash_at s i) (erase i (chains (hash_at s i))))
unfolding remove
remove-IsIndexed s i chains x used = record {
  table = remove-IsTable x.table h i (x.filed i used);
  within = λ k j m. ground (
    arith,
    x.within k j,
    unused_at j,
    hashed_at j,
    mem-erase_self i (chains h) (x.table.distinct h),
    erase-mem i j (chains h),
    x.table.disjoint h k i (x.filed i used),
    m,
  );
  filed = λ j u.
      subst (λ k. mem j (update chains h (erase i (chains h)) k) ≡ true) (sym (hashed_at j))
        (taken-stays chains h i j (hash_at s j) (ground (arith, unused_at j, u))
          (x.filed j (ground (arith, unused_at j, u))));
}
  where
    h : ℕ
    h = hash_at s i

    gone : Server
    gone = record (server_at s i) { state = unused_slot }

    inside : i < length s.servers
    inside = used-lt s.servers i used

    unused_at :
        (j : ℕ)
        → is_unused_at (remove s i).servers j ≡ (if i == j then true else is_unused_at s.servers j)
    unused_at j = is_unused_at-set s.servers i j gone inside

    hashed_at : (j : ℕ) → hash_at (remove s i) j ≡ hash_at s j
    hashed_at j = elim (ℕ_discrete i j) [
      | yes e ↦ rw (← e, get_or-set_self s.servers i gone cleared inside) refl
      | no n ↦ rw (get_or-set_ne s.servers i j gone cleared n) refl
    ]
