-- ===== src/Servers/State/RoundTrip.antt =====
-- src/servers.c: what Sv_SaveState writes is what Sv_LoadState reads.
use mathlib.Core.List.{append_assoc}
use dpmaster_x.Prelude.{
  ℕ, ◌+◌, ◌^◌, ◌≤◌, ◌<◌, ◌≡◌, refl, sym, ◌∙◌, ap, Bool, true, false, none, some, [], ◌∷◌, ◌++◌,
  length, arith, if◌then◌else◌, pos, negsuc, ℤ, uint64, pos_part, neg_part, Bool-cases, inl, inr,
  length-append,
}
use dpmaster_x.Text.{Text, c_string, is_space}
use dpmaster_x.Text.Print.{print_unsigned, print_int}
use dpmaster_x.Text.Scan.{scan_string, lines_of}
use dpmaster_x.Text.Scan.Fields.{
  scan_ulong-first, scan_unsigned-print, scan_int-print, scan_string-word, IsWord, NoSpace,
}
use dpmaster_x.Text.Scan.Lines.{
  OneLine, lines_of-line, OneLine-append, OneLine-NoSpace, OneLine-print_unsigned, c_string-OneLine,
  length-print_unsigned,
}
use dpmaster_x.Address.{is_ipv4, port_of}
use dpmaster_x.Servers.{Server, ServerState}
use dpmaster_x.Servers.State.{Fields, server_line, scan_fields, state_number}

-- The number of the protocol, as a value that is positive.
abbrev pub HasProtocol : Server → ℕ → Type 0
HasProtocol sv n = (sv.protocol ≡ pos n) × (0 < n) × (n < 2 ^ 31)

abbrev pub family_of : Server → ℕ
family_of sv = if is_ipv4 sv.address then 4 else 6

-- A server whose line can be read: its fields are in range, and its names have no white space.
-- The game type may be empty.
pub record IsPrintable (sv : Server) (address : Text) (protocol : ℕ) : Type 0 where
  pub timeout : (pos_part sv.timeout < 2 ^ 63) × (neg_part sv.timeout ≤ 2 ^ 63)
  pub port : port_of sv.address < 2 ^ 16
  pub word : IsWord 45 address
  pub has_protocol : HasProtocol sv protocol
  pub gamename : IsWord 63 sv.gamename
  pub gametype : (length sv.gametype ≤ 31) × NoSpace sv.gametype

uint64-lt : (z : ℤ) → uint64 z < 2 ^ 64
uint64-lt (pos n) = omega arith
uint64-lt (negsuc n) = omega arith

abbrev pub fields_of : Server → Text → Fields
fields_of sv address = record {
  expiry = uint64 sv.timeout;
  family = family_of sv;
  address_string = address;
  port = port_of sv.address;
  protocol = sv.protocol;
  state = pos (state_number sv.state);
  gamename = sv.gamename;
  gametype = sv.gametype;
}

state_number-lt : (st : ServerState) → state_number st < 5
state_number-lt st = ground arith

print_int-HasProtocol :
    (sv : Server) (n : ℕ) → HasProtocol sv n → print_int sv.protocol ≡ print_unsigned n
unfolding print_int
print_int-HasProtocol sv n h = rw (h.0) refl

abbrev pub has_text : Text → Bool
has_text [] = false
has_text (c ∷ s) = true

-- The last field, which `sscanf` does not find if it is empty.
scan_string-last :
    (t : Text)
    → (length t ≤ 31) × NoSpace t
    → scan_string 31 (32 ∷ t ++ 10 ∷ []) ≡ (if has_text t then some (t, 10 ∷ []) else none)
unfolding scan_string is_space
scan_string-last [] h = refl
scan_string-last (c ∷ t) h = scan_string-word 31 (c ∷ t) (10 ∷ []) (omega arith, h.0, h.1) refl

scan_fields-server_line :
    (sv : Server) (address : Text) (protocol : ℕ)
    → IsPrintable sv address protocol
    → scan_fields (server_line sv address)
      ≡ (if has_text sv.gametype then some (fields_of sv address) else none)
unfolding scan_fields server_line is_space
scan_fields-server_line sv address protocol p =
    rw
      (
        print_int-HasProtocol sv protocol p.has_protocol,
        scan_ulong-first (uint64 sv.timeout) _ (uint64-lt sv.timeout) refl,
        scan_unsigned-print 32 (family_of sv) _ (ground arith) (ground arith) refl,
        scan_string-word 45 address _ p.word refl,
        scan_unsigned-print 16 (port_of sv.address) _ (omega (arith, p.port))
            (omega (arith, p.port)) refl,
        scan_int-print protocol _ p.has_protocol.2 refl,
        scan_int-print (state_number sv.state) _ (omega (arith, state_number-lt sv.state)) refl,
        scan_string-word 63 sv.gamename _ p.gamename refl,
        scan_string-last sv.gametype p.gametype,
      )
      (elim (Bool-cases (has_text sv.gametype)) [
        | inl e ↦ rw (e) (cc (p.has_protocol.0))
        | inr e ↦ rw (e) refl
      ])

-- The line without its newline.
line_body : Server → Text → Text
line_body sv address =
    print_unsigned (uint64 sv.timeout)
    ++ (32 ∷ print_unsigned (family_of sv)
        ++ (32 ∷ address
            ++ (32 ∷ print_unsigned (port_of sv.address)
                ++ (32 ∷ print_int sv.protocol
                    ++ (32 ∷ print_unsigned (state_number sv.state)
                        ++ (32 ∷ sv.gamename ++ 32 ∷ sv.gametype))))))

server_line-line_body :
    (sv : Server) (address : Text) → server_line sv address ≡ line_body sv address ++ 10 ∷ []
unfolding server_line line_body
server_line-line_body sv address = simp append_assoc

OneLine-field : (s t : Text) → OneLine s → OneLine t → OneLine (s ++ 32 ∷ t)
OneLine-field s t h k = OneLine-append s (32 ∷ t) h (omega arith, omega arith, k)

module _ (sv : Server) (address : Text) (protocol : ℕ) (p : IsPrintable sv address protocol) where
  OneLine-line_body : OneLine (line_body sv address)
  unfolding line_body
  OneLine-line_body = rw (print_int-HasProtocol sv protocol p.has_protocol) (
      OneLine-field _ _ (OneLine-print_unsigned (uint64 sv.timeout)) (
        OneLine-field _ _ (OneLine-print_unsigned (family_of sv)) (
          OneLine-field _ _ (OneLine-NoSpace address p.word.2) (
            OneLine-field _ _ (OneLine-print_unsigned (port_of sv.address)) (
              OneLine-field _ _ (OneLine-print_unsigned protocol) (
                OneLine-field _ _ (OneLine-print_unsigned (state_number sv.state)) (
                  OneLine-field _ _ (OneLine-NoSpace sv.gamename p.gamename.2)
                    (OneLine-NoSpace sv.gametype p.gametype.1))))))))

  length-line_body : length (line_body sv address) + 1 ≤ 511
  unfolding line_body
  length-line_body = rw (print_int-HasProtocol sv protocol p.has_protocol) (
      simp length-append (
        omega (
          arith,
          length-print_unsigned 19 (uint64 sv.timeout) (omega (arith, uint64-lt sv.timeout)),
          length-print_unsigned 0 (family_of sv) (ground arith),
          length-print_unsigned 4 (port_of sv.address) (omega (arith, p.port)),
          length-print_unsigned 9 protocol (omega (arith, p.has_protocol.2)),
          length-print_unsigned 0 (state_number sv.state) (omega (arith, state_number-lt sv.state)),
          p.word.1,
          p.gamename.1,
          p.gametype.0,
        )))

  pub lines_of-server_line :
      (rest : Text)
      → lines_of 511 (server_line sv address ++ rest) ≡ server_line sv address ∷ lines_of 511 rest
  lines_of-server_line rest =
      rw (server_line-line_body sv address, append_assoc)
        (lines_of-line 511 (line_body sv address) rest OneLine-line_body length-line_body)

  pub scan_fields-c_string :
      scan_fields (c_string (server_line sv address))
      ≡ (if has_text sv.gametype then some (fields_of sv address) else none)
  scan_fields-c_string =
      ap scan_fields (
        ap c_string (server_line-line_body sv address)
        ∙ c_string-OneLine (line_body sv address) OneLine-line_body
        ∙ sym (server_line-line_body sv address))
      ∙ scan_fields-server_line sv address protocol p
