-- ===== src/Messages/Limiter/Window.antt =====
-- src/messages.c: how many heartbeats HeartbeatRateLimited lets through.
use dpmaster_x.Prelude.{
  ℕ, zero, suc, ◌+◌, ◌-◌, ◌%◌, ◌^◌, ◌<◌, ◌≡◌, refl, sym, ap, ◌∙◌, false, none, some, List, [], ◌∷◌,
  ltb, leb, if◌then◌else◌, get_or, set, length, arith, Bool-cases, Option-cases, min, inl, inr,
  get_or-set_self,
}
use dpmaster_x.Address.{Address}
use dpmaster_x.Messages.Limiter.{
  HeartbeatLimit, Limits, cleared, is_entry, find_entry, entry_at, counted, heartbeat_rate_limited,
  heartbeat_limit_window, heartbeat_limit_burst,
}

find_entry-lt :
    (entries : List HeartbeatLimit) (address : Address) (i : ℕ)
    → find_entry entries address ≡ some i
    → i < length entries
unfolding find_entry
find_entry-lt [] address i h = cc
find_entry-lt (e ∷ es) address i h = elim (Bool-cases (is_entry e.address address)) [
  | inl here ↦
      let first : find_entry (e ∷ es) address ≡ some 0 = rw (here, find_entry) refl in
      ground (arith, first, h)
  | inr there ↦ elim (Option-cases (find_entry es address)) [
    | inl missing ↦
        let nothing : find_entry (e ∷ es) address ≡ none = rw (there, missing, find_entry) refl in
        cc
    | inr (j, found) ↦
        let later : find_entry (e ∷ es) address ≡ some (suc j) =
          rw (there, found, find_entry) refl in
        ground (arith, later, h, find_entry-lt es address j found)
  ]
]

-- A write that keeps the addresses changes no search.
find_entry-set :
    (entries : List HeartbeatLimit) (i : ℕ) (entry : HeartbeatLimit) (address : Address)
    → entry.address ≡ (get_or entries i cleared).address
    → find_entry (set entries i entry) address ≡ find_entry entries address
unfolding find_entry
find_entry-set [] i entry address h = refl
find_entry-set (e ∷ es) zero entry address h = rw (h) refl
find_entry-set (e ∷ es) (suc i) entry address h = rw (find_entry-set es i entry address h) refl

-- The heartbeats of one address that are let through, of those at the given times.
pub accepted : Limits → Address → List ℕ → ℕ
accepted l address [] = 0
accepted l address (t ∷ ts) =
    let r = heartbeat_rate_limited l address t in
    let rest = accepted r.0 address ts in if r.1 then rest else suc rest

-- All times are within the window that starts at a time.
abbrev pub AreWithin : ℕ → List ℕ → Type 0
AreWithin start [] = Unit
AreWithin start (t ∷ ts) = (t < start + heartbeat_limit_window) × AreWithin start ts

counted-address : (entry : HeartbeatLimit) (t : ℕ) → (counted entry t).address ≡ entry.address
unfolding counted
counted-address entry t = elim (Bool-cases (leb (entry.window_start + heartbeat_limit_window) t)) [
  | inl new ↦ rw (new) refl
  | inr old ↦ rw (old) refl
]

counted_within :
    (entry : HeartbeatLimit) (t : ℕ)
    → t < entry.window_start + heartbeat_limit_window
    → counted entry t ≡ record entry { count = (entry.count + 1) % 2 ^ 32 }
unfolding counted
counted_within entry t h = rw (old) refl
  where
    old : leb (entry.window_start + heartbeat_limit_window) t ≡ false
    old = ground arith

-- A heartbeat of a known address within the window of its entry.
heartbeat_within :
    (l : Limits) (address : Address) (i t : ℕ) (entry : HeartbeatLimit)
    → find_entry l.heartbeat_limits address ≡ some i
    → entry_at l i ≡ entry
    → t < entry.window_start + heartbeat_limit_window
    → suc entry.count < 2 ^ 32
    → heartbeat_rate_limited l address t ≡ (
      record l {
        heartbeat_limits = set l.heartbeat_limits i (record entry { count = suc entry.count });
      },
      ltb heartbeat_limit_burst (suc entry.count),
    )
unfolding heartbeat_rate_limited
heartbeat_within l address i t entry f e h c =
    rw (f, e, counted_within entry t h, wrapped, heartbeat_rate_limited) refl
  where
    wrapped : (entry.count + 1) % 2 ^ 32 ≡ suc entry.count
    wrapped = omega arith

accepted_within :
    (l : Limits) (address : Address) (i : ℕ) (entry : HeartbeatLimit) (times : List ℕ)
    → find_entry l.heartbeat_limits address ≡ some i
    → entry_at l i ≡ entry
    → AreWithin entry.window_start times
    → entry.count + length times < 2 ^ 32
    → accepted l address times ≡ min (length times) (heartbeat_limit_burst - entry.count)
unfolding accepted
accepted_within l address i entry [] f e w c = omega arith
accepted_within l address i entry (t ∷ ts) f e (h, w) c =
    rw (heartbeat_within l address i t entry f e h (omega arith), accepted)
      (ground (
        arith,
        accepted_within (record l { heartbeat_limits = set l.heartbeat_limits i entry' }) address i
            entry' ts
            (find_entry-set l.heartbeat_limits i entry' address (ap (λ e. e.address) (sym e)) ∙ f)
            (get_or-set_self l.heartbeat_limits i entry' cleared
              (find_entry-lt l.heartbeat_limits address i f))
            w (omega arith),
      ))
  where
    entry' : HeartbeatLimit
    entry' = record entry { count = suc entry.count }

-- From an address that has an entry in the table of the heartbeat limits, of the heartbeats that
-- come within the window of the entry, with none from other addresses in between and without
-- overflow of the counter, exactly the first ones are let through, up to ten for the window,
-- those counted before included.
pub accepted-min :
    (l : Limits) (address : Address) (i : ℕ) (times : List ℕ)
    → find_entry l.heartbeat_limits address ≡ some i
    → AreWithin (entry_at l i).window_start times
    → (entry_at l i).count + length times < 2 ^ 32
    → accepted l address times ≡ min (length times) (heartbeat_limit_burst - (entry_at l i).count)
accepted-min l address i times f w c = accepted_within l address i (entry_at l i) times f refl w c
