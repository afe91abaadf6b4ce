-- ===== src/Servers/Slots/Part.antt =====
-- src/servers.c: the iteration changes no server, but may remove some.
use dpmaster_x.Prelude.{
  ℕ, zero, suc, ◌≡◌, sym, ap, ◌∙◌, inl, inr, false, Option, some, List, get_or, ◌==◌, end_of,
  Bool-cases, Option-cases, OnSome, arith, ltb_ℤ, pos, get_or-set_ne,
}
use native.Mathlib.Decide.{ℕ_discrete}
use dpmaster_x.Servers.{
  Server, Servers, cleared, server_at, is_active, remove, unused_slot, is_unused,
}
use dpmaster_x.Servers.Iterate.{modulo, get_next_from, get_next}
use dpmaster_x.Servers.Slots.{is_unused_at, is_unused_at-set, used-lt}

-- Every server in use was in use before, in its slot.
abbrev pub IsPart : List Server → List Server → Type 0
IsPart now before =
    (j : ℕ)
    → is_unused_at now j ≡ false
    → (is_unused_at before j ≡ false) × (get_or now j cleared ≡ get_or before j cleared)

remove-IsPart :
    (s : Servers) (i : ℕ) (before : List Server)
    → is_unused_at s.servers i ≡ false
    → IsPart s.servers before
    → IsPart (remove s i).servers before
unfolding remove
remove-IsPart s i before used part j u = elim (ℕ_discrete i j) [
  | yes e ↦ absurd (ground (arith, is_unused_at-set s.servers i j gone (used-lt s.servers i used)))
  | no n ↦
      let same = get_or-set_ne s.servers i j gone cleared n in
      let (before_used, equal) = part j (ap (λ (sv : Server). is_unused sv.state) (sym same) ∙ u) in
      (before_used, same ∙ equal)
]
  where
    gone : Server
    gone = record (server_at s i) { state = unused_slot }

is_active-IsPart :
    (s : Servers) (i crt_time : ℕ) (before : List Server)
    → IsPart s.servers before
    → IsPart (is_active s i crt_time).0.servers before
unfolding is_active
is_active-IsPart s i crt_time before part = elim (Bool-cases (is_unused_at s.servers i)) [
  | inl unused ↦ rw (unused, is_active) part
  | inr used ↦ elim (Bool-cases (ltb_ℤ (server_at s i).timeout (pos crt_time))) [
    | inl late ↦ rw (used, late, is_active) (remove-IsPart s i before used part)
    | inr early ↦ rw (used, early, is_active) part
  ]
]

get_next_from-IsPart :
    (rounds : ℕ) (s : Servers) (crt_time : ℕ) (before : List Server)
    → IsPart s.servers before
    → OnSome
        (λ (r : Servers × Option ℕ). IsPart r.0.servers before)
        (get_next_from rounds s crt_time)
unfolding get_next_from
get_next_from-IsPart zero s crt_time before part = part
get_next_from-IsPart (suc rounds) s crt_time before part =
    elim (Bool-cases (end_of s.crt_server_ind == end_of s.last_server_ind)) [
      | inl stop ↦ rw (stop, get_next_from) part
      | inr go ↦ elim (Option-cases (modulo (end_of s.crt_server_ind) (end_of s.last_used_slot))) [
        | inl e ↦ rw (go, e, get_next_from) tt
        | inr (ind, e) ↦
            let part' =
              is_active-IsPart (record s { crt_server_ind = some ind }) ind crt_time before part in
            elim (Bool-cases (is_active (record s { crt_server_ind = some ind }) ind crt_time).1) [
              | inl alive ↦ rw (go, e, alive, get_next_from) part'
              | inr dead ↦
                  rw (go, e, dead, get_next_from)
                    (get_next_from-IsPart rounds _ crt_time before part')
            ]
      ]
    ]

pub get_next-IsPart :
    (s : Servers) (crt_time : ℕ) (before : List Server)
    → IsPart s.servers before
    → OnSome (λ (r : Servers × Option ℕ). IsPart r.0.servers before) (get_next s crt_time)
unfolding get_next
get_next-IsPart s crt_time before part =
    get_next_from-IsPart s.max_nb_servers s crt_time before part
