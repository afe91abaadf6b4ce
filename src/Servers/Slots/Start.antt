-- ===== src/Servers/Slots/Start.antt =====
-- src/servers.c: Sv_Init and the well-formedness of the list.
use dpmaster_x.Prelude.{
  false, leb, ℕ, zero, suc, ◌^◌, ◌<◌, ◌≡◌, refl, Bool, true, replicate, arith, length-replicate,
  get_or-replicate, none, some, [], ◌∙◌, sym, ap,
}
use dpmaster_x.Servers.{Servers, cleared, is_unused}
use dpmaster_x.Servers.Config.{init, initial, set_max_nb_servers}
use dpmaster_x.Users.Chains.{init-IsTable}
use dpmaster_x.Servers.Slots.Indexed.{Indexed}
use dpmaster_x.Servers.Slots.{IsWellFormed, IsCalmFrom, count_used}

count_used-replicate : (n : ℕ) → count_used (replicate n cleared) ≡ 0
unfolding count_used
count_used-replicate zero = refl
count_used-replicate (suc n) = count_used-replicate n

set_max_nb_servers-initial :
    (nb : ℕ)
    → 0 < nb
    → set_max_nb_servers initial nb ≡ (record initial { max_nb_servers = nb }, true)
unfolding set_max_nb_servers
set_max_nb_servers-initial nb p = rw (small) refl
  where
    small : leb nb 0 ≡ false
    small = ground arith

-- Sv_Init on a list that has not been used.
pub init_unused-IsWellFormed :
    (s : Servers) (allocated : Bool)
    → 0 < s.max_nb_servers
    → s.max_nb_servers < 2 ^ 31
    → s.nb_servers ≡ 0
    → s.last_used_slot ≡ none
    → s.first_free_slot ≡ some 0
    → IsWellFormed (init true allocated s).0
unfolding init
init_unused-IsWellFormed s allocated p h n l f = record {
  size = length-replicate s.max_nb_servers cleared;
  small = h;
  counted = count_used-replicate s.max_nb_servers ∙ sym n;
  last = λ i u. absurd (ground (arith, get_or-replicate s.max_nb_servers i cleared, u));
  last_used = λ k e. absurd (cc (sym l ∙ e));
  last_inside = rw (l) (omega arith);
  free = λ k e. (
    ground (arith, f, e, p),
    ap (λ sv. is_unused sv.state) (get_or-replicate s.max_nb_servers k cleared),
  );
  free_least = λ j k u. rw (f) (omega arith);
}

-- No server has timed out, as none is in use.
pub init-IsCalm :
    (s : Servers) (allocated : Bool) (crt_time : ℕ)
    → IsCalmFrom (init true allocated s).0 0 crt_time
unfolding init
init-IsCalm s allocated crt_time j l u =
    absurd (ground (arith, get_or-replicate s.max_nb_servers j cleared, u))

-- The chains are empty.
pub init-Indexed : (s : Servers) (allocated : Bool) → Indexed (init true allocated s).0
unfolding init
init-Indexed s allocated = (
  λ h. [],
  record {
    table = init-IsTable;
    within = λ h i m. cc;
    filed = λ i u. absurd (ground (arith, get_or-replicate s.max_nb_servers i cleared, u));
  },
)

-- Sv_SetMaxNbServers with a number from 1 to 2^31 - 1, and then Sv_Init with enough memory for
-- the array, lead from the initial variables to a well-formed list.
pub init-IsWellFormed :
    (nb : ℕ) (allocated : Bool)
    → 0 < nb
    → nb < 2 ^ 31
    → IsWellFormed (init true allocated (set_max_nb_servers initial nb).0).0
init-IsWellFormed nb allocated p h =
    rw (set_max_nb_servers-initial nb p) (
      init_unused-IsWellFormed (record initial { max_nb_servers = nb }) allocated p h refl refl
        refl)
