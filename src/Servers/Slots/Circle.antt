-- ===== src/Servers/Slots/Circle.antt =====
-- src/servers.c: the steps of Sv_GetNext go round the slots.
use native.Mathlib.Decide.{ℕ_discrete}
use native.Mathlib.Nat.{mod_self, mod-eq_of_lt}
use dpmaster_x.Prelude.{
  ℕ, zero, suc, ◌%◌, ◌≤◌, ◌<◌, ◌≡◌, refl, ap, ◌∙◌, ◌≢◌, none, some, arith, ◌==◌, if◌then◌else◌,
  Index, end_of,
}
use dpmaster_x.Servers.{Servers}
use dpmaster_x.Servers.Iterate.{modulo}
use dpmaster_x.Servers.Slots.{IsWellFormed}
use dpmaster_x.Servers.Slots.Iteration.{IsIterating, distance, gap}

-- The next slot, in a circle.
unfoldable pub at_current : Servers → ℕ → Servers
at_current s i = record s { crt_server_ind = some i }

pub at_current-IsWellFormed : (s : Servers) (i : ℕ) → IsWellFormed s → IsWellFormed (at_current s i)
unfolding at_current
at_current-IsWellFormed s i w = record {
  size = w.size;
  small = w.small;
  counted = w.counted;
  last = w.last;
  last_used = w.last_used;
  last_inside = w.last_inside;
  free = w.free;
  free_least = w.free_least;
}

pub mod-next : (c L : ℕ) → c ≤ L → 0 < L → c % L ≡ (if c == L then 0 else c)
mod-next c L h k = elim (ℕ_discrete c L) [
  | yes e ↦ rw (e) (mod_self L ∙ ground arith)
  | no n ↦ mod-eq_of_lt (ground arith) ∙ ground arith
]

pub IsIterating-next :
    (s : Servers)
    → IsIterating s
    → end_of s.crt_server_ind ≢ end_of s.last_server_ind
    → (0 < end_of s.last_used_slot)
      × IsIterating (at_current s (end_of s.crt_server_ind % end_of s.last_used_slot))
      × (distance (at_current s (end_of s.crt_server_ind % end_of s.last_used_slot)) < distance s)
unfolding at_current distance gap
IsIterating-next s it n = (
  ground (arith, it.current, it.last),
  record {
    current = ground (arith, it.current, it.last, e);
    last = it.last;
    current_index = λ h. omega arith;
    last_index = it.last_index;
  },
  ground (arith, it.current, it.last, it.last_index, it.current_index, e),
)
  where
    e : end_of s.crt_server_ind % end_of s.last_used_slot ≡ (
        if end_of s.crt_server_ind == end_of s.last_used_slot then 0 else end_of s.crt_server_ind)
    e =
        mod-next (end_of s.crt_server_ind) (end_of s.last_used_slot) it.current
          (ground (arith, it.current, it.last))

pub end_of-inj : (a b : Index) → end_of a ≡ end_of b → a ≡ b
end_of-inj none none e = refl
end_of-inj none (some b) e = absurd (omega arith)
end_of-inj (some a) none e = absurd (omega arith)
end_of-inj (some a) (some b) e = ap some (omega arith)

pub distance-zero :
    (s : Servers)
    → IsIterating s
    → distance s ≤ 0
    → end_of s.crt_server_ind ≡ end_of s.last_server_ind
unfolding distance gap
distance-zero s it d = ground (arith, it.current, it.last, it.last_index)

pub modulo-some : (a n : ℕ) → 0 < n → modulo a n ≡ some (a % n)
unfolding modulo
modulo-some a zero h = absurd (omega arith)
modulo-some a (suc n) h = refl
