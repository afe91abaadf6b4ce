-- ===== src/CommandLine/Parse/Rendered.antt =====
-- src/dpmaster.c: options written as arguments, and ParseCommandLine on them.
use dpmaster_x.Prelude.{
  ℕ, zero, suc, ◌-◌, ◌≤◌, ◌≡◌, refl, ◌∙◌, ap, ◌⊎◌, inl, inr, Bool, true, false, none, some, List,
  [], ◌∷◌, ◌++◌, arith, length, length-append, take, drop, leb, if◌then◌else◌,
}
use dpmaster_x.Text.{Text, strcmp, after_char, before_char}
use dpmaster_x.CommandLine.Options.{CmdlineOption, cmdline_options, sys_cmdline_options}
use dpmaster_x.CommandLine.{Program, Memory, Result, cmdline_option, sys_cmdline_option}
use dpmaster_x.CommandLine.Parse.{
  Found, find_option, count_params, gather, is_param, run_option, parse_argument, after_option,
}

-- An option of one of the two tables, with its parameters.
pub record Command : Type 0 where
  pub sys_option : Bool
  pub opt : CmdlineOption
  pub params : List Text

abbrev pub table : Bool → List CmdlineOption
table true = sys_cmdline_options
table false = cmdline_options

abbrev pub Among : CmdlineOption → List CmdlineOption → Type 0
Among opt [] = ⊥
Among opt (x ∷ xs) = (opt ≡ x) ⊎ Among opt xs

abbrev pub AllParams : List Text → Type 0
AllParams [] = Unit
AllParams (arg ∷ args) = (is_param arg ≡ true) × AllParams args

-- The option has as many parameters as it may have, and those that it need not have do not begin
-- with a dash.
pub record IsCommand (c : Command) : Type 0 where
  pub listed : Among c.opt (table c.sys_option)
  pub enough : c.opt.min_params ≤ length c.params
  pub few : length c.params ≤ c.opt.max_params
  pub params : AllParams (drop c.opt.min_params c.params)

abbrev pub AllCommands : List Command → Type 0
AllCommands [] = Unit
AllCommands (c ∷ cs) = IsCommand c × AllCommands cs

abbrev pub long_argument : CmdlineOption → Text
long_argument opt = b'-' ∷ b'-' ∷ opt.long_name

-- The commands as arguments.
unfoldable pub arguments : List Command → List Text
arguments [] = []
arguments (c ∷ cs) = long_argument c.opt ∷ (c.params ++ arguments cs)

abbrev pub call : Program → Memory → Command → Result
call p m c =
    if c.sys_option then sys_cmdline_option p c.opt c.params else cmdline_option p m c.opt c.params

abbrev pub found_long : Bool → CmdlineOption → Found
found_long sys_option opt = record { opt = opt; sys_option = sys_option; first_param = none }

AllFound : Bool → List CmdlineOption → Type 0
AllFound sys_option [] = Unit
AllFound sys_option (opt ∷ opts) =
    (find_option (long_argument opt) ≡ some (found_long sys_option opt)) × AllFound sys_option opts

Among-found :
    (sys_option : Bool) (opt : CmdlineOption) (opts : List CmdlineOption)
    → AllFound sys_option opts
    → Among opt opts
    → find_option (long_argument opt) ≡ some (found_long sys_option opt)
unfolding AllFound
Among-found sys_option opt [] a h = absurd h
Among-found sys_option opt (x ∷ xs) a (inl e) = rw (e) a.0
Among-found sys_option opt (x ∷ xs) a (inr h) = Among-found sys_option opt xs a.1 h

-- Every option is found by its long name.
pub find_option-long :
    (sys_option : Bool) (opt : CmdlineOption)
    → Among opt (table sys_option)
    → find_option (long_argument opt) ≡ some (found_long sys_option opt)
unfolding AllFound find_option strcmp after_char before_char
find_option-long true opt h = Among-found true opt sys_cmdline_options (assumption refl) h
find_option-long false opt h = Among-found false opt cmdline_options (assumption refl) h

take-append : (xs ys : List Text) → take (length xs) (xs ++ ys) ≡ xs
take-append [] ys = refl
take-append (x ∷ xs) ys = ap (λ t. x ∷ t) (take-append xs ys)

drop-append_self : (xs ys : List Text) → drop (length xs) (xs ++ ys) ≡ ys
drop-append_self [] ys = refl
drop-append_self (x ∷ xs) ys = drop-append_self xs ys

drop-append : (n : ℕ) (xs ys : List Text) → n ≤ length xs → drop n (xs ++ ys) ≡ drop n xs ++ ys
drop-append zero xs ys h = refl
drop-append (suc n) [] ys h = absurd (omega arith)
drop-append (suc n) (x ∷ xs) ys h = drop-append n xs ys (omega arith)

length-drop_exact : (n : ℕ) (xs : List Text) → length (drop n xs) ≡ length xs - n
length-drop_exact zero xs = omega arith
length-drop_exact (suc n) [] = omega arith
length-drop_exact (suc n) (x ∷ xs) = omega (arith, length-drop_exact n xs)

gather-append : (xs ys : List Text) → AllParams xs → gather ys ≡ 0 → gather (xs ++ ys) ≡ length xs
unfolding gather
gather-append [] ys a h = h
gather-append (x ∷ xs) ys a h = rw (a.0) (ap suc (gather-append xs ys a.1 h))

gather-arguments : (cs : List Command) → gather (arguments cs) ≡ 0
unfolding gather arguments
gather-arguments [] = refl
gather-arguments (c ∷ cs) = refl

count_params-command :
    (c : Command) (cs : List Command)
    → IsCommand c
    → count_params (found_long c.sys_option c.opt) (c.params ++ arguments cs)
      ≡ some (record { nb_params = length c.params; separate = length c.params })
unfolding count_params
count_params-command c cs h =
    let n : ℕ = c.opt.min_params in
    let args = c.params ++ arguments cs in
    let gathered : gather (drop n args) ≡ length c.params - n =
      ap gather (drop-append n c.params (arguments cs) h.enough)
      ∙ gather-append (drop n c.params) (arguments cs) h.params (gather-arguments cs)
      ∙ length-drop_exact n c.params in
    let gathered' : gather (drop (n - 0) args) ≡ length c.params - n =
      ap (λ k. gather (drop k args)) (omega arith) ∙ gathered in
    let fits : leb (n - 0) (length args) ≡ true =
      ground (arith, length-append c.params (arguments cs), h.enough) in
    rw (fits, count_params) (ground (arith, gathered', h.enough))

pub parse_argument-command :
    (p : Program) (m : Memory) (c : Command) (cs : List Command)
    → IsCommand c
    → parse_argument p m (long_argument c.opt) (c.params ++ arguments cs)
      ≡ after_option c.opt
          (arguments cs)
          (long_argument c.opt ∷ (c.params ++ arguments cs))
          (call p m c)
unfolding parse_argument run_option
parse_argument-command p m c cs h =
    let few : leb (length c.params) c.opt.max_params ≡ true = ground (arith, h.few) in
    rw
      (
        find_option-long c.sys_option c.opt h.listed,
        count_params-command c cs h,
        few,
        take-append c.params (arguments cs),
        parse_argument,
      )
      (ap
        (λ rest.
          after_option c.opt rest (long_argument c.opt ∷ (c.params ++ arguments cs)) (call p m c))
        (drop-append_self c.params (arguments cs)))
