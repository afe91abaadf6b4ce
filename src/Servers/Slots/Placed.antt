-- ===== src/Servers/Slots/Placed.antt =====
-- src/servers.c: a new server in the chains of the hash table.
use native.Mathlib.Decide.{ℕ_discrete}
use dpmaster_x.Prelude.{
  ltb_ℤ, pos, ℕ, suc, ◌≡◌, ◌<◌, refl, ap, ◌∙◌, inl, inr, true, false, none, some, List, [], ◌∷◌,
  arith, length, length-set, zero, subst, ltb, end_of, set, ◌==◌, if◌then◌else◌, Bool-cases,
  get_or-set_self, get_or-set_ne, subst,
}
use dpmaster_x.Address.{Address, address_hash}
use dpmaster_x.Users
use dpmaster_x.Users.{update}
use dpmaster_x.Users.Chains.{add-IsTable}
use dpmaster_x.Servers.{remove, unused_slot, Server, Servers, cleared, server_at, is_active}
use dpmaster_x.Servers.Lookup.{find_free, allocate, new_server}
use dpmaster_x.Servers.Slots.{IsWellFormed, is_unused_at, is_unused_at-set, used-lt}
use dpmaster_x.Servers.Slots.Indexed.{IsIndexed, Indexed, hash_at}
use dpmaster_x.Servers.Slots.Searched.{is_active-Indexed, is_active-late}

-- Only these fields matter.
pub same-IsIndexed :
    (s s' : Servers) (chains : ℕ → List ℕ)
    → s'.servers ≡ s.servers
    → s'.users ≡ s.users
    → s'.hash_ports ≡ s.hash_ports
    → s'.sv_hash_size ≡ s.sv_hash_size
    → IsIndexed s chains
    → IsIndexed s' chains
same-IsIndexed s s' chains servers users ports size x = record {
  table = rw (users) x.table;
  within = λ h i m. rw (servers, ports, size) (x.within h i m);
  filed = λ i u. rw (servers, ports, size) (x.filed i (rw (← servers) u));
}

-- A server put into a free slot, and in front of the chain of its hash.
filled-IsIndexed :
    (s s' : Servers) (i : ℕ) (sv : Server) (chains : ℕ → List ℕ)
    → IsIndexed s chains
    → is_unused_at s.servers i ≡ true
    → is_unused_at (sv ∷ []) 0 ≡ false
    → i < length s.servers
    → let hash = address_hash s.hash_ports sv.address s.sv_hash_size in
      s'.servers ≡ set s.servers i sv
      → s'.users ≡ Users.add s.users i hash
      → s'.hash_ports ≡ s.hash_ports
      → s'.sv_hash_size ≡ s.sv_hash_size
      → IsIndexed s' (update chains hash (i ∷ chains hash))
filled-IsIndexed s s' i sv chains x free used inside servers users ports size = record {
  table = rw (users) (add-IsTable x.table hash i (λ k. ground (arith, x.within k i, free)));
  within = λ h j m. ground (arith, x.within h j, unused_at j, hashed_at j, m);
  filed = λ j u. ground (arith, x.filed j, unused_at j, hashed_at j, u);
}
  where
    hash : ℕ
    hash = address_hash s.hash_ports sv.address s.sv_hash_size

    unused_at :
        (j : ℕ) → is_unused_at s'.servers j ≡ (if i == j then false else is_unused_at s.servers j)
    unused_at j =
        ap (λ servers. is_unused_at servers j) servers
        ∙ is_unused_at-set s.servers i j sv inside
        ∙ ap (λ b. if i == j then b else is_unused_at s.servers j) used

    hashed_at : (j : ℕ) → hash_at s' j ≡ (if i == j then hash else hash_at s j)
    hashed_at j =
        rw (ports, size, servers)
          (elim (ℕ_discrete i j) [
            | yes e ↦ rw (← e, get_or-set_self s.servers i sv cleared inside) (ground arith)
            | no n ↦ rw (get_or-set_ne s.servers i j sv cleared n) (ground arith)
          ])

-- A free slot of an indexed list, with the settings of another list.
record IsFree (s : Servers) (i : ℕ) (s' : Servers) : Type 0 where
  indexed : Indexed s'
  free : is_unused_at s'.servers i ≡ true
  inside : i < length s'.servers
  ports : s'.hash_ports ≡ s.hash_ports
  size : s'.sv_hash_size ≡ s.sv_hash_size

is_active-IsFree :
    (s s' : Servers) (i j crt_time : ℕ) → IsFree s i s' → IsFree s i (is_active s' j crt_time).0
unfolding is_active remove
is_active-IsFree s s' i j crt_time f = elim (Bool-cases (is_unused_at s'.servers j)) [
  | inl unused ↦ rw (unused, is_active) f
  | inr used ↦ elim (Bool-cases (ltb_ℤ (server_at s' j).timeout (pos crt_time))) [
    | inl late ↦
        let gone : Server = record (server_at s' j) { state = unused_slot } in
        rw (used, late, is_active)
          (record {
            indexed =
                subst (λ r. Indexed r.0) (is_active-late s' j crt_time used late)
                  (is_active-Indexed s' j crt_time f.indexed);
            free =
                ground
                  (arith, is_unused_at-set s'.servers j i gone (used-lt s'.servers j used), f.free);
            inside = rw (length-set s'.servers j gone) f.inside;
            ports = f.ports;
            size = f.size;
          })
    | inr early ↦ rw (used, early, is_active) f
  ]
]

first_free-Indexed :
    (s : Servers) (ind : ℕ) → Indexed s → Indexed (record s { first_free_slot = some ind })
first_free-Indexed s ind (chains, x) = (
  chains,
  same-IsIndexed s (record s { first_free_slot = some ind }) chains refl refl refl refl x,
)

find_free-IsFree :
    (rounds : ℕ) (s s' : Servers) (i ind crt_time : ℕ)
    → IsFree s i s'
    → IsFree s i (find_free rounds s' ind crt_time)
unfolding find_free
find_free-IsFree zero s s' i ind crt_time f = f
find_free-IsFree (suc rounds) s s' i ind crt_time f =
    let active = is_active s' ind crt_time in
    let f' = is_active-IsFree s s' i ind crt_time f in
    elim (Bool-cases (ltb ind s'.max_nb_servers)) [
      | inr stop ↦ rw (stop, find_free) f
      | inl more ↦ elim (Bool-cases active.1) [
        | inl alive ↦
            rw (more, alive, find_free) (find_free-IsFree rounds s active.0 i (suc ind) crt_time f')
        | inr dead ↦
            rw (more, dead, find_free)
              (record {
                indexed = first_free-Indexed active.0 ind f'.indexed;
                free = f'.free;
                inside = f'.inside;
                ports = f'.ports;
                size = f'.size;
              })
      ]
    ]

pub allocate-Indexed :
    (s : Servers) (i : ℕ) (address : Address) (crt_time : ℕ)
    → IsWellFormed s
    → s.first_free_slot ≡ some i
    → Indexed s
    → Indexed (allocate s i address crt_time)
unfolding allocate
allocate-Indexed s i address crt_time w e (chains, x) =
    let raised : Servers = record s {
      last_used_slot = if ltb (end_of s.last_used_slot) (suc i) then some i else s.last_used_slot;
      first_free_slot = none;
    } in
    let f = find_free-IsFree s.max_nb_servers s raised i (suc i) crt_time (record {
      indexed = (chains, same-IsIndexed s raised chains refl refl refl refl x);
      free = (w.free i e).1;
      inside = omega (arith, (w.free i e).0, w.size);
      ports = refl;
      size = refl;
    }) in
    let found = find_free s.max_nb_servers raised (suc i) crt_time in
    let sv = new_server s address crt_time in
    let (chains', x') = f.indexed in
    let hash = address_hash found.hash_ports address found.sv_hash_size in
    (
      update chains' hash (i ∷ chains' hash),
      filled-IsIndexed found (allocate s i address crt_time) i sv chains' x' f.free refl f.inside
          refl (rw (f.ports, f.size) refl) refl refl,
    )
