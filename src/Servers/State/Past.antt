-- ===== src/Servers/State/Past.antt =====
-- src/servers.c: what Sv_LoadState makes of an expiry that does not fit a time_t.
use mathlib.Core.Option
use dpmaster_x.Prelude.{
  ℕ, ◌^◌, ◌≤◌, ◌<◌, ◌≡◌, ◌∙◌, ap, true, false, Option, some, arith, length, ltb_ℤ, int64, pos,
  get_or-set_self,
}
use dpmaster_x.Text.{Text, c_string}
use dpmaster_x.Address.{Address}
use dpmaster_x.Games.{Policy}
use dpmaster_x.Properties.{Registry}
use dpmaster_x.Properties.Lookups.{get_properties}
use dpmaster_x.Servers.{Servers, ServerState, server_at, cleared, is_active, remove, is_unused}
use dpmaster_x.Servers.Lookup.{get_by_addr}
use dpmaster_x.Servers.Slots.{is_unused_at}
use dpmaster_x.Servers.Slots.Searched.{is_active-late}
use dpmaster_x.Servers.State.{
  AddressText, Fields, scan_fields, check_fields, address_of, load_line, restore,
}

int64-past : (n now : ℕ) → 2 ^ 63 ≤ n → n < 2 ^ 64 → ltb_ℤ (int64 n) (pos now) ≡ true
int64-past n now h k = ground arith

check_fields-used :
    (policy : Policy) (f : Fields) (crt_time : ℕ) (state : ServerState)
    → check_fields policy f crt_time ≡ some state
    → is_unused state ≡ false
unfolding check_fields
check_fields-used policy f crt_time state h = ground (arith, h)

-- If Sv_LoadState takes a line, and Sv_GetByAddr gives a slot of the array for its address, but
-- the expiry of the line is 2^63 or more, then that server has timed out at every time: the next
-- Sv_IsActive of its slot removes it.
pub load_line-past :
    (api : AddressText) (policy : Policy) (r : Registry) (crt_time : ℕ) (s : Servers) (line : Text)
    (f : Fields) (state : ServerState) (address : Address) (i now : ℕ)
    → scan_fields (c_string line) ≡ some f
    → check_fields policy f crt_time ≡ some state
    → address_of api f ≡ some address
    → (get_by_addr s address true crt_time).1 ≡ some i
    → i < length (get_by_addr s address true crt_time).0.servers
    → 2 ^ 63 ≤ f.expiry
    → f.expiry < 2 ^ 64
    → is_active (load_line api policy r crt_time s line) i now
      ≡ (remove (load_line api policy r crt_time s line) i, false)
unfolding load_line restore
load_line-past api policy r crt_time s line f state address i now e e' e'' found inside past small =
    is_active-late (load_line api policy r crt_time s line) i now used late
  where
    got : Servers × Option ℕ
    got = get_by_addr s address true crt_time

    entry : server_at (load_line api policy r crt_time s line) i ≡ record (server_at got.0 i) {
      timeout = int64 f.expiry;
      protocol = f.protocol;
      state = state;
      gamename = f.gamename;
      gametype = f.gametype;
      anon_properties = Option.map (λ p. p.name) (get_properties r f.gamename);
    }
    entry =
        rw (e, e', e'', found, load_line, restore)
          (get_or-set_self got.0.servers i _ cleared inside)

    used : is_unused_at (load_line api policy r crt_time s line).servers i ≡ false
    used = ap (λ sv. is_unused sv.state) entry ∙ check_fields-used policy f crt_time state e'

    late : ltb_ℤ (server_at (load_line api policy r crt_time s line) i).timeout (pos now) ≡ true
    late = ap (λ sv. ltb_ℤ sv.timeout (pos now)) entry ∙ int64-past f.expiry now past small
