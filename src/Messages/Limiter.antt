-- ===== src/Messages/Limiter.antt =====
-- src/messages.c: the heartbeat rate limit. Entries with `addrlen` 0 hold no address. An address is
-- compared with all its bytes, padding included, which is zero in both.
pub mod Window
use dpmaster_x.Prelude.{
  ℕ, zero, suc, ◌+◌, ◌%◌, ◌^◌, Bool, true, false, ◌&&◌, Option, none, some, List, [], ◌∷◌, ltb, leb,
  ◌==◌, if◌then◌else◌, get_or, set, replicate,
}
use mathlib.Core.Option
use dpmaster_x.Address.{Address, ipv4, ipv6}

-- `heartbeat_limit_t`
pub record HeartbeatLimit : Type 0 where
  pub address : Option Address
  pub window_start : ℕ
  pub count : ℕ

pub record Limits : Type 0 where
  pub heartbeat_limits : List HeartbeatLimit
  pub heartbeat_limit_next : ℕ

abbrev pub cleared : HeartbeatLimit
cleared = record { address = none; window_start = 0; count = 0 }

-- HEARTBEAT_LIMIT_SLOTS
abbrev pub heartbeat_limit_slots : ℕ
heartbeat_limit_slots = 1024

-- HEARTBEAT_LIMIT_WINDOW
abbrev pub heartbeat_limit_window : ℕ
heartbeat_limit_window = 10

-- HEARTBEAT_LIMIT_BURST
abbrev pub heartbeat_limit_burst : ℕ
heartbeat_limit_burst = 10

-- The static variables, which are cleared.
unfoldable pub initial : Limits
initial = record {
  heartbeat_limits = replicate heartbeat_limit_slots cleared;
  heartbeat_limit_next = 0;
}

-- `memcmp` of the two addresses
unfoldable pub same_bytes : Address → Address → Bool
same_bytes (ipv4 a) (ipv4 b) = a.s_addr == b.s_addr && a.sin_port == b.sin_port
same_bytes (ipv6 a) (ipv6 b) =
    (a.w0 == b.w0 && a.w1 == b.w1)
    && (a.w2 == b.w2 && a.w3 == b.w3)
    && (a.sin6_port == b.sin6_port
        && (a.sin6_scope_id == b.sin6_scope_id && a.sin6_flowinfo == b.sin6_flowinfo))
same_bytes _ _ = false

abbrev pub is_entry : Option Address → Address → Bool
is_entry none address = false
is_entry (some a) address = same_bytes a address

-- The index of the first entry for the address.
unfoldable pub find_entry : List HeartbeatLimit → Address → Option ℕ
find_entry [] address = none
find_entry (entry ∷ entries) address =
    let later = Option.map suc (find_entry entries address) in
    if is_entry entry.address address then some 0 else later

abbrev pub entry_at : Limits → ℕ → HeartbeatLimit
entry_at l i = get_or l.heartbeat_limits i cleared

-- The entry after one more heartbeat; a window that has passed starts anew.
unfoldable pub counted : HeartbeatLimit → ℕ → HeartbeatLimit
counted entry crt_time =
    if leb (entry.window_start + heartbeat_limit_window) crt_time
    then record entry { window_start = crt_time; count = 1 }
    else record entry { count = (entry.count + 1) % 2 ^ 32 }

-- HeartbeatRateLimited
unfoldable pub heartbeat_rate_limited : Limits → Address → ℕ → Limits × Bool
heartbeat_rate_limited l address crt_time = elim (find_entry l.heartbeat_limits address) [
  | some i ↦
      let entry = counted (entry_at l i) crt_time in
      (
        record l { heartbeat_limits = set l.heartbeat_limits i entry },
        ltb heartbeat_limit_burst entry.count,
      )
  | none ↦
      let ind = l.heartbeat_limit_next % heartbeat_limit_slots in
      let entry : HeartbeatLimit = record {
        address = some address;
        window_start = crt_time;
        count = 1;
      } in
      (
        record {
          heartbeat_limits = set l.heartbeat_limits ind entry;
          heartbeat_limit_next = (l.heartbeat_limit_next + 1) % 2 ^ 32;
        },
        false,
      )
]
