-- ===== src/Servers/State/Safe.antt =====
-- src/servers.c: Sv_LoadState keeps the server list well formed, whatever the file holds.
use dpmaster_x.Prelude.{
  ℕ, ◌<◌, ◌^◌, ltb_ℤ, int64, pos, leb, ◌≡◌, sym, refl, ◌∙◌, inl, inr, Bool, true, false, Option,
  some, List, [], ◌∷◌, arith, OnSome, Bool-cases, Option-cases, OnSome-at, ℤ,
}
use dpmaster_x.Text.{Text, c_string, str_eq}
use dpmaster_x.Text.Scan.{lines_of}
use dpmaster_x.Address.{Address}
use dpmaster_x.Games.{Policy}
use dpmaster_x.Properties.{Registry}
use dpmaster_x.Servers.{Servers, ServerState, is_unused}
use dpmaster_x.Servers.Lookup.{get_by_addr}
use dpmaster_x.Servers.Slots.{IsWellFormed, IsCalmFrom, is_unused_at, used-lt}
use dpmaster_x.Servers.Slots.Search.{get_by_addr-IsWellFormed}
use dpmaster_x.Servers.Slots.Write.{set-IsWellFormed}
use dpmaster_x.Servers.Slots.Added.{IsAdded, get_by_addr-IsAdded, set-AllCurrent}
use dpmaster_x.Servers.Slots.Indexed.{Indexed}
use dpmaster_x.Servers.Slots.Filed.{get_by_addr-Indexed}
use dpmaster_x.Servers.Slots.Chained.{set-Indexed}
use dpmaster_x.Servers.State.{
  AddressText, Fields, StateFile, scan_fields, check_fields, address_of, restore, load_line,
  load_lines, load_contents, load_state, state_of, magic_line,
}

-- A well-formed list in which no server has timed out, with chains that hold the servers in use.
abbrev pub IsReady : ℕ → Servers → Type 0
IsReady crt_time s = IsWellFormed s × IsCalmFrom s 0 crt_time × Indexed s

-- An expiry that is read is a time.
abbrev pub IsTimed : Fields → Type 0
IsTimed f = f.expiry < 2 ^ 63

-- No line that can be read has an expiry of 2^63 or more.
abbrev pub AllTimed : List Text → Type 0
AllTimed [] = Unit
AllTimed (line ∷ lines) = OnSome IsTimed (scan_fields (c_string line)) × AllTimed lines

-- The same of all lines of a file, if there is one.
abbrev pub IsTimely : Option Text → Type 0
IsTimely contents = OnSome (λ text. AllTimed (lines_of 511 text)) contents

restore-IsReady :
    (r : Registry) (crt_time : ℕ) (s : Servers) (address : Address) (expiry : ℕ) (protocol : ℤ)
    (state : ServerState) (gamename gametype : Text)
    → IsReady crt_time s
    → ltb_ℤ (int64 expiry) (pos crt_time) ≡ false
    → is_unused state ≡ false
    → IsReady crt_time (restore r crt_time s address expiry protocol state gamename gametype)
unfolding restore
restore-IsReady r crt_time s address expiry protocol state gamename gametype (w, calm, x) later
      used =
    elim (Option-cases got.1) [
      | inl e ↦ rw (e, restore) (kept, (λ j l u. added.0 j u), indexed)
      | inr (i, e) ↦
          let at = OnSome-at (λ i. is_unused_at got.0.servers i ≡ false) added.1 e in
          rw (e, restore)
            (
              set-IsWellFormed got.0 i _ kept (used ∙ sym at),
              (λ j l u.
                  set-AllCurrent got.0.servers i _ crt_time added.0 (used-lt got.0.servers i at)
                    later j u),
              set-Indexed got.0 i _ indexed refl (used ∙ sym at),
            )
    ]
  where
    got : Servers × Option ℕ
    got = get_by_addr s address true crt_time

    kept : IsWellFormed got.0
    kept = get_by_addr-IsWellFormed s address true crt_time w (λ a. calm)

    indexed : Indexed got.0
    indexed = get_by_addr-Indexed s address true crt_time w x

    added : IsAdded crt_time got
    added = get_by_addr-IsAdded s address crt_time w calm

state_of-used : (z : ℤ) (state : ServerState) → state_of z ≡ some state → is_unused state ≡ false
state_of-used z state h = ground (arith, h)

int64-later : (n now : ℕ) → n < 2 ^ 63 → leb n now ≡ false → ltb_ℤ (int64 n) (pos now) ≡ false
int64-later n now small later = ground arith

check_fields-later :
    (policy : Policy) (f : Fields) (crt_time : ℕ) (state : ServerState)
    → IsTimed f
    → check_fields policy f crt_time ≡ some state
    → (ltb_ℤ (int64 f.expiry) (pos crt_time) ≡ false) × (is_unused state ≡ false)
unfolding check_fields
check_fields-later policy f crt_time state t h =
    (int64-later f.expiry crt_time t (ground (arith, h)), ground (arith, h))

module _ (api : AddressText) (policy : Policy) (r : Registry) (crt_time : ℕ) where
  load_line-IsReady :
      (s : Servers) (line : Text)
      → OnSome IsTimed (scan_fields (c_string line))
      → IsReady crt_time s
      → IsReady crt_time (load_line api policy r crt_time s line)
  unfolding load_line
  load_line-IsReady s line timed ready = elim (Option-cases (scan_fields (c_string line))) [
    | inl e ↦ rw (e, load_line) ready
    | inr (f, e) ↦ elim (Option-cases (check_fields policy f crt_time)) [
      | inl e' ↦ rw (e, e', load_line) ready
      | inr (state, e') ↦ elim (Option-cases (address_of api f)) [
        | inl e'' ↦ rw (e, e', e'', load_line) ready
        | inr (address, e'') ↦
            let (later, used) =
              check_fields-later policy f crt_time state (OnSome-at IsTimed timed e) e' in
            rw (e, e', e'', load_line)
              (restore-IsReady r crt_time s address f.expiry f.protocol state f.gamename f.gametype
                ready later used)
      ]
    ]
  ]

  load_lines-IsReady :
      (s : Servers) (lines : List Text)
      → AllTimed lines
      → IsReady crt_time s
      → IsReady crt_time (load_lines api policy r crt_time s lines)
  unfolding load_lines
  load_lines-IsReady s [] t ready = ready
  load_lines-IsReady s (line ∷ lines) t ready =
      load_lines-IsReady (load_line api policy r crt_time s line) lines t.1
        (load_line-IsReady s line t.0 ready)

  load_contents-IsReady :
      (s : Servers) (lines : List Text)
      → AllTimed lines
      → IsReady crt_time s
      → IsReady crt_time (load_contents api policy r crt_time s lines).0
  unfolding load_contents
  load_contents-IsReady s [] t ready = ready
  load_contents-IsReady s (line ∷ lines) t ready =
      elim (Bool-cases (str_eq (c_string line) magic_line)) [
        | inl same ↦ rw (same, load_contents) (load_lines-IsReady s lines t.1 ready)
        | inr other ↦ rw (other, load_contents) ready
      ]

  -- From a well-formed server list in which no server has timed out, and whose hash chains hold
  -- exactly the servers in use, each at the hash of its address, Sv_LoadState leads to such a
  -- list, whether or not the state file can be opened, and whatever it contains, except lines
  -- that can be read with an expiry of 2^63 or more.
  pub load_state-IsReady :
      (readable : Bool) (file : StateFile) (s : Servers)
      → IsTimely file.contents
      → IsReady crt_time s
      → IsReady crt_time (load_state api policy r readable crt_time file s).0
  unfolding load_state
  load_state-IsReady readable file s timely ready = elim (Option-cases file.path) [
    | inl e ↦ rw (e, load_state) ready
    | inr (path, e) ↦ elim (Option-cases file.contents) [
      | inl e' ↦ rw (e, e', load_state) ready
      | inr (contents, e') ↦ elim (Bool-cases readable) [
        | inr no_file ↦ rw (e, e', no_file, load_state) ready
        | inl opened ↦
            rw (e, e', opened, load_state)
              (load_contents-IsReady s (lines_of 511 contents)
                (OnSome-at (λ text. AllTimed (lines_of 511 text)) timely e') ready)
      ]
    ]
  ]
