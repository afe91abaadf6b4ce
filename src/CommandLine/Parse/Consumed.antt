-- ===== src/CommandLine/Parse/Consumed.antt =====
-- src/dpmaster.c: the loop of ParseCommandLine ends, and takes every argument if it succeeds.
use dpmaster_x.Prelude.{
  ℕ, zero, suc, ◌+◌, ◌≤◌, ◌≡◌, refl, sym, ◌∙◌, ap, inl, inr, true, false, none, some, List, [], ◌∷◌,
  arith, length, drop, Bool-cases, Option-cases,
}
use dpmaster_x.Text.{Text}
use dpmaster_x.Games.{CmdlineStatus}
use dpmaster_x.Games.CmdlineStatus.{ok}
use dpmaster_x.CommandLine.{Program, Memory}
use dpmaster_x.CommandLine.Parse.{
  Parsed, find_option, count_params, parse_argument, parse_from, is_ok,
}

length-drop : (n : ℕ) (xs : List Text) → length (drop n xs) ≤ length xs
length-drop zero xs = omega arith
length-drop (suc n) [] = omega arith
length-drop (suc n) (x ∷ xs) = omega (arith, length-drop n xs)

-- A round that succeeds leaves a part of the arguments behind the one that it parsed.
pub parse_argument-length :
    (p : Program) (m : Memory) (crt_arg : Text) (args : List Text) (r : Parsed)
    → parse_argument p m crt_arg args ≡ some r
    → r.status ≡ ok
    → length r.args ≤ length args
unfolding parse_argument
parse_argument-length p m crt_arg args r e k = elim (Option-cases (find_option crt_arg)) [
  | inl f ↦ absurd (ground (arith, f, e, k))
  | inr (f, found) ↦ elim (Option-cases (count_params f args)) [
    | inl c ↦ absurd (ground (arith, found, c, e, k))
    | inr (count, counted) ↦ ground (arith, found, counted, e, k, length-drop count.separate args)
  ]
]

-- A step of the loop that goes on.
pub parse_from-ok :
    (rounds : ℕ) (p : Program) (m : Memory) (crt_arg : Text) (args : List Text) (r : Parsed)
    → parse_argument p m crt_arg args ≡ some r
    → r.status ≡ ok
    → parse_from (suc rounds) p m (crt_arg ∷ args) ≡ parse_from rounds r.program m r.args
unfolding parse_from
parse_from-ok rounds p m crt_arg args r e k = rw (e, k, parse_from) refl

-- A step that ends it.
pub parse_from-stop :
    (rounds : ℕ) (p : Program) (m : Memory) (crt_arg : Text) (args : List Text) (r : Parsed)
    → parse_argument p m crt_arg args ≡ some r
    → is_ok r.status ≡ false
    → parse_from (suc rounds) p m (crt_arg ∷ args) ≡ some r
unfolding parse_from
parse_from-stop rounds p m crt_arg args r e k = rw (e, parse_from) (ground (arith, k))

pub parse_from-undefined :
    (rounds : ℕ) (p : Program) (m : Memory) (crt_arg : Text) (args : List Text)
    → parse_argument p m crt_arg args ≡ none
    → parse_from (suc rounds) p m (crt_arg ∷ args) ≡ none
unfolding parse_from
parse_from-undefined rounds p m crt_arg args e = rw (e, parse_from) refl

pub is_ok→ok : (status : CmdlineStatus) → is_ok status ≡ true → status ≡ ok
is_ok→ok status h = ground (arith, h)

-- One more round than enough changes nothing.
parse_from-suc :
    (rounds : ℕ) (p : Program) (m : Memory) (args : List Text)
    → length args ≤ rounds
    → parse_from (suc rounds) p m args ≡ parse_from rounds p m args
parse_from-suc zero p m [] h = unfold parse_from in refl
parse_from-suc (suc rounds) p m [] h = unfold parse_from in refl
parse_from-suc zero p m (crt_arg ∷ args) h = absurd (omega arith)
parse_from-suc (suc rounds) p m (crt_arg ∷ args) h =
    elim (Option-cases (parse_argument p m crt_arg args)) [
      | inl e ↦
          parse_from-undefined (suc rounds) p m crt_arg args e
          ∙ sym (parse_from-undefined rounds p m crt_arg args e)
      | inr (r, e) ↦ elim (Bool-cases (is_ok r.status)) [
        | inr k ↦
            parse_from-stop (suc rounds) p m crt_arg args r e k
            ∙ sym (parse_from-stop rounds p m crt_arg args r e k)
        | inl t ↦
            let k = is_ok→ok r.status t in
            parse_from-ok (suc rounds) p m crt_arg args r e k
            ∙ parse_from-suc rounds r.program m r.args
                (omega (arith, parse_argument-length p m crt_arg args r e k))
            ∙ sym (parse_from-ok rounds p m crt_arg args r e k)
      ]
    ]

pub parse_from-more :
    (more : ℕ) (p : Program) (m : Memory) (args : List Text)
    → parse_from (more + length args) p m args ≡ parse_from (length args) p m args
parse_from-more zero p m args = ap (λ n. parse_from n p m args) (omega arith)
parse_from-more (suc more) p m args =
    ap (λ n. parse_from n p m args) (omega arith)
    ∙ parse_from-suc (more + length args) p m args (omega arith)
    ∙ parse_from-more more p m args

-- Rounds that are as many as the arguments are enough: if the status is OK, none is left.
parse_from-consumed :
    (rounds : ℕ) (p : Program) (m : Memory) (args : List Text) (r : Parsed)
    → length args ≤ rounds
    → parse_from rounds p m args ≡ some r
    → r.status ≡ ok
    → r.args ≡ []
parse_from-consumed zero p m [] r h e k = unfold parse_from in (ground (arith, e))
parse_from-consumed (suc rounds) p m [] r h e k = unfold parse_from in (ground (arith, e))
parse_from-consumed zero p m (crt_arg ∷ args) r h e k = absurd (omega arith)
parse_from-consumed (suc rounds) p m (crt_arg ∷ args) r h e k =
    elim (Option-cases (parse_argument p m crt_arg args)) [
      | inl u ↦ absurd (cc (parse_from-undefined rounds p m crt_arg args u))
      | inr (r', e') ↦ elim (Bool-cases (is_ok r'.status)) [
        | inr k' ↦
            let same = parse_from-stop rounds p m crt_arg args r' e' k' in
            absurd (ground (arith, same, e, k, k'))
        | inl t ↦
            let k' = is_ok→ok r'.status t in
            parse_from-consumed rounds r'.program m r'.args r
              (omega (arith, parse_argument-length p m crt_arg args r' e' k'))
              (sym (parse_from-ok rounds p m crt_arg args r' e' k') ∙ e) k
      ]
    ]

-- The loop of ParseCommandLine ends after at most as many rounds as there are arguments: more
-- rounds change nothing, and if the status is OK at the end, no argument is left.
pub parse_from-ends :
    (p : Program) (m : Memory) (args : List Text)
    → ((more : ℕ) → parse_from (more + length args) p m args ≡ parse_from (length args) p m args)
      × ((r : Parsed) → parse_from (length args) p m args ≡ some r → r.status ≡ ok → r.args ≡ [])
parse_from-ends p m args = (
  λ more. parse_from-more more p m args,
  λ r e k. parse_from-consumed (length args) p m args r (omega arith) e k,
)
