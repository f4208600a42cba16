-- ===== src/Host/Arguments/Options.antt =====
-- host/src/main.rs: `parse_opts` against the writing of the options.
use Prim.Native.String.{String}
use fieldbus_control_node.Prelude.{
  ℕ, ◌≡◌, refl, ap, ◌∙◌, Option, none, some, List, [], ◌∷◌, ok, ◌>>=◌,
}
use fieldbus_control_node.Host.Schedule.{Mode, real_time, virtual, mode_name}
use fieldbus_control_node.Host.Arguments.{
  Args, World, default_args, set_option, options, parse_opts, parse_u64, parse_mode, ok_or_misuse,
}

-- The arguments that name an option, if it is set, in front of others.
abbrev pub with_number : (ℕ → String) → String → Option ℕ → List String → List String
with_number shown flag none rest = rest
with_number shown flag (some n) rest = flag ∷ shown n ∷ rest

abbrev pub with_text : String → Option String → List String → List String
with_text flag none rest = rest
with_text flag (some value) rest = flag ∷ value ∷ rest

-- The whole command line of some options.
abbrev pub command_line : (ℕ → String) → Args → List String
command_line shown a = with_number shown "--cycles" a.cycles (
    with_number shown "--period-us" a.period_us (
      with_number shown "--seed" a.seed (
        "--mode"
        ∷ mode_name a.mode
        ∷ "--manifest"
        ∷ a.manifest
        ∷ with_text "--run-id" a.run_id (with_text "--out" a.out []))))

module _ (world : World) where
  options-cons :
      (a a' : Args) (flag value : String) (rest : List String)
      → set_option world a flag (some value) ≡ ok a'
      → options world a (flag ∷ value ∷ rest) ≡ options world a' rest
  unfolding options
  options-cons a a' flag value rest e = ap (λ r. r >>= λ b. options world b rest) e

  module _ (shown : ℕ → String) where
    -- An unset number, or one that `str::parse` reads back.
    abbrev pub Reads : Option ℕ → Type 0
    Reads none = Unit
    Reads (some n) = world.parse_number (shown n) ≡ some n

    options_cycles :
        (a : Args) (n : Option ℕ) (rest : List String)
        → Reads n
        → a.cycles ≡ none
        → options world a (with_number shown "--cycles" n rest)
          ≡ options world (record a { cycles = n }) rest
    unfolding set_option ok_or_misuse parse_u64
    options_cycles a none rest h e = rw (← e) refl
    options_cycles a (some n) rest h e = options-cons a _ "--cycles" (shown n) rest (rw h refl)

    options_period :
        (a : Args) (n : Option ℕ) (rest : List String)
        → Reads n
        → a.period_us ≡ none
        → options world a (with_number shown "--period-us" n rest)
          ≡ options world (record a { period_us = n }) rest
    unfolding set_option ok_or_misuse parse_u64
    options_period a none rest h e = rw (← e) refl
    options_period a (some n) rest h e = options-cons a _ "--period-us" (shown n) rest (rw h refl)

    options_seed :
        (a : Args) (n : Option ℕ) (rest : List String)
        → Reads n
        → a.seed ≡ none
        → options world a (with_number shown "--seed" n rest)
          ≡ options world (record a { seed = n }) rest
    unfolding set_option ok_or_misuse parse_u64
    options_seed a none rest h e = rw (← e) refl
    options_seed a (some n) rest h e = options-cons a _ "--seed" (shown n) rest (rw h refl)

    options_mode :
        (a : Args) (m : Mode) (rest : List String)
        → options world a ("--mode" ∷ mode_name m ∷ rest)
          ≡ options world (record a { mode = m }) rest
    unfolding set_option ok_or_misuse parse_mode mode_name
    options_mode a real_time rest = options-cons a _ "--mode" "real-time" rest refl
    options_mode a virtual rest = options-cons a _ "--mode" "virtual-time" rest refl

    options_manifest :
        (a : Args) (path : String) (rest : List String)
        → options world a ("--manifest" ∷ path ∷ rest)
          ≡ options world (record a { manifest = path }) rest
    unfolding set_option ok_or_misuse
    options_manifest a path rest = options-cons a _ "--manifest" path rest refl

    options_run_id :
        (a : Args) (id : Option String) (rest : List String)
        → a.run_id ≡ none
        → options world a (with_text "--run-id" id rest)
          ≡ options world (record a { run_id = id }) rest
    unfolding set_option ok_or_misuse
    options_run_id a none rest e = rw (← e) refl
    options_run_id a (some id) rest e = options-cons a _ "--run-id" id rest refl

    options_out :
        (a : Args) (path : Option String)
        → a.out ≡ none
        → options world a (with_text "--out" path []) ≡ ok (record a { out = path })
    unfolding set_option ok_or_misuse options
    options_out a none e = rw (← e) refl
    options_out a (some path) e = refl

    -- What the options say is what is parsed: the command line that names each option that is set,
    -- with its numbers in a form that `str::parse` reads back, is parsed to exactly those options.
    pub parse_opts-command_line :
        (a : Args)
        → Reads a.cycles
        → Reads a.period_us
        → Reads a.seed
        → parse_opts world (command_line shown a) ≡ ok a
    unfolding parse_opts default_args
    parse_opts-command_line a c p s =
        options_cycles _ a.cycles _ c refl
        ∙ options_period _ a.period_us _ p refl
        ∙ options_seed _ a.seed _ s refl
        ∙ options_mode _ a.mode _
        ∙ options_manifest _ a.manifest _
        ∙ options_run_id _ a.run_id _ refl
        ∙ options_out _ a.out refl
