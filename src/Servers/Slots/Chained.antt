-- ===== src/Servers/Slots/Chained.antt =====
-- src/servers.c: writes to servers, and the iteration, keep the chains of the hash table.
use dpmaster_x.Prelude.{
  ℕ, zero, suc, ◌≡◌, refl, sym, ◌∙◌, inl, inr, Option, some, List, [], ◌∷◌, set, get_or, ◌==◌,
  end_of, Bool-cases, Option-cases, OnSome,
}
use dpmaster_x.Servers.{Server, Servers, cleared, server_at, is_active, is_unused}
use dpmaster_x.Servers.Iterate.{modulo, get_next_from, get_next, last_from, get_first}
use dpmaster_x.Servers.Slots.{is_unused_at}
use dpmaster_x.Servers.Slots.Write.{is_unused_at-same}
use dpmaster_x.Servers.Slots.Indexed.{Indexed}
use dpmaster_x.Servers.Slots.Placed.{same-IsIndexed}
use dpmaster_x.Servers.Slots.Searched.{is_active-Indexed}

address-set :
    (servers : List Server) (i j : ℕ) (sv : Server)
    → sv.address ≡ (get_or servers i cleared).address
    → (get_or (set servers i sv) j cleared).address ≡ (get_or servers j cleared).address
address-set [] i j sv e = refl
address-set (x ∷ svs) zero zero sv e = e
address-set (x ∷ svs) zero (suc j) sv e = refl
address-set (x ∷ svs) (suc i) zero sv e = refl
address-set (x ∷ svs) (suc i) (suc j) sv e = address-set svs i j sv e

-- A write that keeps the address, and whether the slot is in use.
pub set-Indexed :
    (s : Servers) (i : ℕ) (sv : Server)
    → Indexed s
    → sv.address ≡ (server_at s i).address
    → is_unused sv.state ≡ is_unused_at s.servers i
    → Indexed (record s { servers = set s.servers i sv })
set-Indexed s i sv (chains, x) a u = (
  chains,
  record {
    table = x.table;
    within = λ h j m.
        rw (is_unused_at-same s.servers i j sv u, address-set s.servers i j sv a) (x.within h j m);
    filed = λ j k.
        rw (address-set s.servers i j sv a)
          (x.filed j (sym (is_unused_at-same s.servers i j sv u) ∙ k));
  },
)

at_index-Indexed :
    (s : Servers) (i : ℕ) → Indexed s → Indexed (record s { crt_server_ind = some i })
at_index-Indexed s i (chains, x) =
    (chains, same-IsIndexed s (record s { crt_server_ind = some i }) chains refl refl refl refl x)

-- What the calls of the iteration return.
abbrev pub KeepsIndex : Option (Servers × Option ℕ) → Type 0
KeepsIndex result = OnSome (λ r. Indexed r.0) result

get_next_from-KeepsIndex :
    (rounds : ℕ) (s : Servers) (crt_time : ℕ)
    → Indexed s
    → KeepsIndex (get_next_from rounds s crt_time)
unfolding get_next_from
get_next_from-KeepsIndex zero s crt_time x = x
get_next_from-KeepsIndex (suc rounds) s crt_time x =
    elim (Bool-cases (end_of s.crt_server_ind == end_of s.last_server_ind)) [
      | inl stop ↦ rw (stop, get_next_from) x
      | inr go ↦ elim (Option-cases (modulo (end_of s.crt_server_ind) (end_of s.last_used_slot))) [
        | inl e ↦ rw (go, e, get_next_from) tt
        | inr (ind, e) ↦
            let x' =
              is_active-Indexed (record s { crt_server_ind = some ind }) ind crt_time
                (at_index-Indexed s ind x) in
            elim (Bool-cases (is_active (record s { crt_server_ind = some ind }) ind crt_time).1) [
              | inl alive ↦ rw (go, e, alive, get_next_from) x'
              | inr dead ↦
                  rw (go, e, dead, get_next_from) (get_next_from-KeepsIndex rounds _ crt_time x')
            ]
      ]
    ]

pub get_next-KeepsIndex :
    (s : Servers) (crt_time : ℕ) → Indexed s → KeepsIndex (get_next s crt_time)
unfolding get_next
get_next-KeepsIndex s crt_time x = get_next_from-KeepsIndex s.max_nb_servers s crt_time x

pub get_first-KeepsIndex :
    (s : Servers) (rand crt_time : ℕ) → Indexed s → KeepsIndex (get_first s rand crt_time)
unfolding get_first
get_first-KeepsIndex s rand crt_time (chains, x) = elim (Bool-cases (s.nb_servers == 0)) [
  | inl no_server ↦ rw (no_server) (chains, x)
  | inr some_server ↦ elim (Option-cases (modulo rand (end_of s.last_used_slot))) [
    | inl e ↦ rw (some_server, e) tt
    | inr (ind, e) ↦
        let start : Servers = record s {
          crt_server_ind = some ind;
          last_server_ind = last_from s ind;
        } in
        let x' =
          is_active-Indexed start ind crt_time
            (chains, same-IsIndexed s start chains refl refl refl refl x) in
        elim (Bool-cases (is_active start ind crt_time).1) [
          | inl alive ↦ rw (some_server, e, alive) x'
          | inr dead ↦ rw (some_server, e, dead) (get_next-KeepsIndex _ crt_time x')
        ]
  ]
]
