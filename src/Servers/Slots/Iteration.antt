-- ===== src/Servers/Slots/Iteration.antt =====
-- src/servers.c: the ends of an iteration, and Sv_Remove.
use dpmaster_x.Prelude.{
  ltb_ℤ, pos, ℕ, suc, ◌+◌, ◌-◌, ◌≤◌, ◌<◌, ◌≡◌, refl, ap, ◌∙◌, ◌⊎◌, inl, inr, Bool, true, false,
  none, some, arith, set, ltb, if◌then◌else◌, Index, end_of, Bool-cases,
}
use dpmaster_x.Servers.{Servers, server_at, is_active, remove, unused_slot, is_index, clamp}
use dpmaster_x.Servers.Slots.{IsWellFormed, is_unused_at, last_used_before-le, remove-IsWellFormed}

-- Both ends of the iteration are indices up to the last used slot.
pub record IsIterating (s : Servers) : Type 0 where
  pub current : end_of s.crt_server_ind ≤ end_of s.last_used_slot
  pub last : end_of s.last_server_ind ≤ end_of s.last_used_slot
  pub current_index : 0 < end_of s.last_used_slot → 0 < end_of s.crt_server_ind
  pub last_index : 0 < end_of s.last_used_slot → 0 < end_of s.last_server_ind

-- The number of slots that are left to visit, from the ends of the indices.
unfoldable pub gap : ℕ → ℕ → ℕ → ℕ
gap current last used = if ltb last current then (used - current) + last else last - current

unfoldable pub distance : Servers → ℕ
unfolding gap
distance s = gap (end_of s.crt_server_ind) (end_of s.last_server_ind) (end_of s.last_used_slot)

end_of-clamp :
    (a b : Index) → end_of (clamp a b) ≡ (if ltb (end_of b) (end_of a) then end_of b else end_of a)
end_of-clamp a b = elim (Bool-cases (ltb (end_of b) (end_of a))) [ inl h ↦ rw (h) | inr h ↦ rw (h) ]

min : ℕ → ℕ → ℕ
min a b = if ltb b a then b else a

gap-shrink :
    (c l L L' : ℕ)
    → c ≤ L
    → l ≤ L
    → (L' ≡ L) ⊎ ((c ≡ L) × (L' < L))
    → gap (min c L') (min l L') L' ≤ gap c l L
unfolding gap min
gap-shrink c l L L' h k (inl e) = ground (arith)
gap-shrink c l L L' h k (inr e) = ground (arith)

remove-last_used :
    (s : Servers) (i : ℕ)
    → s.crt_server_ind ≡ some i
    → end_of s.crt_server_ind ≤ end_of s.last_used_slot
    → (end_of (remove s i).last_used_slot ≡ end_of s.last_used_slot)
      ⊎ ((end_of s.crt_server_ind ≡ end_of s.last_used_slot)
          × (end_of (remove s i).last_used_slot < end_of s.last_used_slot))
unfolding remove
remove-last_used s i e h = elim (Bool-cases (is_index s.last_used_slot i)) [
  | inr inner ↦ inl (rw (inner) refl)
  | inl top ↦ inr (
    ap end_of e ∙ same s.last_used_slot top,
    rw (top, ← same s.last_used_slot top)
        (ground (
          arith,
          last_used_before-le (set s.servers i (record (server_at s i) { state = unused_slot })) i,
        )),
  )
]
  where
    same : (x : Index) → is_index x i ≡ true → suc i ≡ end_of x
    same none t = cc
    same (some k) t = ground arith

remove-current :
    (s : Servers) (i : ℕ)
    → end_of (remove s i).crt_server_ind
      ≡ min (end_of s.crt_server_ind) (end_of (remove s i).last_used_slot)
unfolding remove min
remove-current s i = end_of-clamp s.crt_server_ind (remove s i).last_used_slot

remove-last :
    (s : Servers) (i : ℕ)
    → end_of (remove s i).last_server_ind
      ≡ min (end_of s.last_server_ind) (end_of (remove s i).last_used_slot)
unfolding remove min
remove-last s i = end_of-clamp s.last_server_ind (remove s i).last_used_slot

remove-distance :
    (s : Servers) (i : ℕ)
    → s.crt_server_ind ≡ some i
    → IsIterating s
    → distance (remove s i) ≤ distance s
unfolding distance
remove-distance s i e it =
    rw (remove-current s i, remove-last s i)
      (gap-shrink (end_of s.crt_server_ind) (end_of s.last_server_ind) (end_of s.last_used_slot)
        (end_of (remove s i).last_used_slot) it.current it.last (remove-last_used s i e it.current))

remove-IsIterating :
    (s : Servers) (i : ℕ) → s.crt_server_ind ≡ some i → IsIterating s → IsIterating (remove s i)
unfolding min
remove-IsIterating s i e it = record {
  current = ground (arith, remove-current s i);
  last = ground (arith, remove-last s i);
  current_index =
      λ h. ground (arith, remove-current s i, remove-last_used s i e it.current, it.current_index);
  last_index =
      λ h. ground (arith, remove-last s i, remove-last_used s i e it.current, it.last_index);
}

-- What Sv_IsActive says of the current slot.
pub record IsVisit (s : Servers) (i crt_time : ℕ) (r : Servers × Bool) : Type 0 where
  pub kept : IsWellFormed r.0
  pub iterating : IsIterating r.0
  pub nearer : distance r.0 ≤ distance s
  pub alive :
      r.1 ≡ true
      → (r.0.crt_server_ind ≡ some i)
        × (is_unused_at r.0.servers i ≡ false)
        × (ltb_ℤ (server_at r.0 i).timeout (pos crt_time) ≡ false)

pub is_active-IsVisit :
    (s : Servers) (i crt_time : ℕ)
    → s.crt_server_ind ≡ some i
    → IsWellFormed s
    → IsIterating s
    → IsVisit s i crt_time (is_active s i crt_time)
unfolding is_active
is_active-IsVisit s i crt_time e w it = elim (Bool-cases (is_unused_at s.servers i)) [
  | inl unused ↦
      rw (unused, is_active)
        (record { kept = w; iterating = it; nearer = omega arith; alive = λ h. cc })
  | inr used ↦ elim (Bool-cases (ltb_ℤ (server_at s i).timeout (pos crt_time))) [
    | inl late ↦
        rw (used, late, is_active)
          (record {
            kept = remove-IsWellFormed s i w used;
            iterating = remove-IsIterating s i e it;
            nearer = remove-distance s i e it;
            alive = λ h. cc;
          })
    | inr early ↦
        rw (used, early, is_active)
          (record {
            kept = w;
            iterating = it;
            nearer = omega arith;
            alive = λ h. (e, used, ground arith);
          })
  ]
]
