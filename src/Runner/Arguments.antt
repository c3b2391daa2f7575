-- ===== src/Runner/Arguments.antt =====
-- The command line (parse_command, parse_arguments): options and one command. `files` gives
-- the texts of the files that options read.
pub mod Commands
use my_sqltutorials.Prelude.{
  ℕ, zero, suc, ◌+◌, ◌-◌, ◌*◌, ◌/◌, ◌%◌, ◌^◌, ◌≤◌, ◌<◌, ◌≡◌, ◌≢◌, ◌↔◌, ◌⊎◌, inl, inr, refl, ap, sym,
  ◌∙◌, arith, Bool, true, false, not, Option, none, some, List, [], ◌∷◌, ◌++◌, map, ltb, leb, ◌==◌,
  ◌&&◌, ◌||◌, if◌then◌else◌, Bool-cases, length, get_elem?, set, take, drop, replicate,
  length-append, get_elem?-set_ne, get_elem?-set_self, foldr, Chars,
}
use my_sqltutorials.Options.{Opt, Arg, ArgType, find_option}
use my_sqltutorials.Options.Set.{set_option, register_arg_set}
use my_sqltutorials.Logger.Text.{same_text}
use my_sqltutorials.Runner.Names.{
  command_prepare, command_run, command_help, command_cleanup, name_version,
}

-- sb_cmd_t
pub data Command : Type 0 where
  null prepare run cleanup help version : Command

unfoldable pub parse_command : Chars → Command
parse_command cmd =
    if same_text cmd command_prepare
    then prepare
    else if same_text cmd command_run
    then run
    else if same_text cmd command_help
    then help
    else if same_text cmd command_cleanup
    then cleanup
    else if same_text cmd name_version
    then version
    else null

abbrev pub is_null : Command → Bool
is_null null = true
is_null _ = false

-- An argument that starts with two dashes.
unfoldable pub is_option : Chars → Bool
is_option (a ∷ b ∷ s) = (a == 45) && (b == 45)
is_option _ = false

-- The name up to the first '=', and the value behind it.
unfoldable pub split_value : Chars → Chars × Option Chars
split_value [] = ([], none)
split_value (c ∷ s) =
    let (name, value) = split_value s in if c == 61 then ([], some s) else (c ∷ name, value)

-- The type of an option that there is, or a string.
abbrev type_of : List Opt → Chars → ArgType
type_of os name = elim (find_option os name) [ none ↦ ArgType.string | some o ↦ o.type ]

-- One option of the command line, without its dashes.
unfoldable pub set_argument : (files : Chars → Option Chars) → List Opt → Chars → Bool × List Opt
set_argument files os s =
    let (name, value) = split_value s in set_option files os name value (type_of os name)

-- What an option does behind a command.
pub data Behind : Type 0 where
  refuses accepts sets : Behind

abbrev pub behind : Command → Behind
behind help = refuses
behind version = accepts
behind _ = sets

-- The loop over the arguments; `none` is the result 1.
unfoldable pub parse_args :
    (files : Chars → Option Chars) → List Chars → Command → List Opt → Option (Command × List Opt)
parse_args files [] command os = some (command, os)
parse_args files (a ∷ rest) command os =
    let option_set = parse_args files rest command (set_argument files os (drop 2 a)).1 in
    let command_set = parse_args files rest (parse_command a) os in
    if is_option a
    then elim (behind command) [
      | refuses ↦ none
      | accepts ↦ some (command, os)
      | sets ↦ (if (set_argument files os (drop 2 a)).0 then none else option_set)
    ]
    else if not (is_null command) || is_null (parse_command a)
    then none
    else command_set

-- The options of the tests, up to the first test that has none.
unfoldable pub register_tests_args :
    (files : Chars → Option Chars) → List (Option (List Arg)) → List Opt → Bool × List Opt
register_tests_args files [] os = (false, os)
register_tests_args files (none ∷ tests) os = (false, os)
register_tests_args files (some args ∷ tests) os =
    let (failed, os') = register_arg_set files args os in
    elim failed [ true ↦ (true, os') | false ↦ register_tests_args files tests os' ]

unfoldable pub parse_arguments :
    (files : Chars → Option Chars) (general : List Arg) (tests : List (Option (List Arg)))
    → List Chars
    → List Opt
    → Option (Command × List Opt)
parse_arguments files general tests args os =
    let (failed, os') = register_arg_set files general os in
    let (failed', os'') = register_tests_args files tests os' in
    if failed || failed' then none else parse_args files args null os''
