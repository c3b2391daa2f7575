-- ===== src/Runner/Main.antt =====
-- The program (main): the command line, the set-up, and the command on the test that it names.
pub mod Commands
use my_sqltutorials.Prelude.{
  ℕ, zero, suc, ◌+◌, ◌-◌, ◌*◌, ◌/◌, ◌%◌, ◌^◌, ◌≤◌, ◌<◌, ◌≡◌, ◌≢◌, ◌↔◌, ◌⊎◌, inl, inr, refl, ap, sym,
  ◌∙◌, arith, Bool, true, false, not, Option, none, some, List, [], ◌∷◌, ◌++◌, map, ltb, leb, ◌==◌,
  ◌&&◌, ◌||◌, if◌then◌else◌, Bool-cases, length, get_elem?, set, take, drop, replicate,
  length-append, get_elem?-set_ne, get_elem?-set_self, foldr, Chars,
}
use my_sqltutorials.Prelude.Int.{ℤ, pos, negsuc}
use my_sqltutorials.Options.{Opt, Arg, get_value_flag, get_value_string}
use my_sqltutorials.Logger.Text.{same_text}
use my_sqltutorials.Runner.Names.{name_test, name_version}
use my_sqltutorials.Runner.Arguments.{
  Command, null, prepare, run, cleanup, help, version, is_null, parse_arguments,
}
use my_sqltutorials.Runner.Setup.{Library, Setup, init}
use my_sqltutorials.Runner.Run.{RunWorld, run_test}

-- sb_test_t: its name, its options and the results of its commands, which it may not have.
pub record Test : Type 0 where
  pub sname : Chars
  pub args : Option (List Arg)
  pub has_help : Bool
  pub prepare_command : Option ℤ
  pub cleanup_command : Option ℤ

pub data MainAct : Type 0 where
  prints_usage prints_version prints_header prints_options prints_help : MainAct
  runs_prepare runs_cleanup runs_test ends_log : MainAct

-- The exit status, and what was done.
pub record End : Type 0 where
  pub status : ℤ
  pub acts : List MainAct

abbrev ends : ℤ → List MainAct → End
ends status acts = record { status = status; acts = acts }

-- What main meets: the tests compiled in and whether one fails to register, the options of the
-- handlers and the general ones, the results of the initialization, and what a run meets.
pub record MainWorld : Type 0 where
  pub tests : List Test
  pub register_fails : Bool
  pub log_options : List Opt
  pub general : List Arg
  pub library : Library
  pub threads_ok : Bool
  pub log_init_fails : Bool
  pub script_load : Chars → Option Test
  pub run_world : Setup → Test → RunWorld

unfoldable pub find_test : List Test → Chars → Option Test
find_test [] name = none
find_test (t ∷ ts) name = if same_text t.sname name then some t else find_test ts name

-- A test that is compiled in, or a script.
unfoldable pub load_test : MainWorld → Chars → Option Test
load_test w name = elim (find_test w.tests name) [ none ↦ w.script_load name | some t ↦ some t ]

unfoldable pub help_command : Option Test → End
help_command none = ends (pos 0) (prints_header ∷ prints_usage ∷ [])
help_command (some t) = ends (pos 0) (
    prints_header
    ∷ ((elim t.args [ none ↦ [] | some args ↦ prints_options ∷ [] ])
        ++ (if t.has_help then prints_help ∷ [] else [])))

-- A command of a test, which ends with its result.
abbrev test_command : MainAct → Option ℤ → End
test_command act none = ends (pos 1) (prints_header ∷ [])
test_command act (some result) = ends result (prints_header ∷ act ∷ [])

unfoldable pub run_command : MainWorld → Setup → Test → End
run_command w s t =
    if (run_test (w.run_world s t)).0
    then ends (pos 1) (prints_header ∷ runs_test ∷ [])
    else ends (pos 0) (prints_header ∷ runs_test ∷ ends_log ∷ [])

-- A command other than help, on a test.
unfoldable pub dispatch : MainWorld → Setup → Command → Test → End
dispatch w s prepare t = test_command runs_prepare t.prepare_command
dispatch w s cleanup t = test_command runs_cleanup t.cleanup_command
dispatch w s command t = run_command w s t

abbrev pub is_help : Command → Bool
is_help help = true
is_help _ = false

abbrev pub is_version : Command → Bool
is_version version = true
is_version _ = false

-- The test that the options name.
abbrev pub named_test : MainWorld → Option Chars → Option Test
named_test w none = none
named_test w (some name) = load_test w name

-- A command other than help, with the name and the test that there are.
abbrev pub on_test : MainWorld → Setup → Command → (testname : Option Chars) → Option Test → End
on_test w s command none test = ends (pos 1) (prints_header ∷ prints_usage ∷ [])
on_test w s command (some name) none = ends (pos 1) (prints_header ∷ [])
on_test w s command (some name) (some t) = dispatch w s command t

-- The part of main behind the set-up.
unfoldable pub main_command : MainWorld → Setup → Command → List Opt → End
main_command w s command os =
    let testname = get_value_string os name_test in
    if is_help command
    then help_command (named_test w testname)
    else on_test w s command testname (named_test w testname)

-- The part of main behind the command line.
unfoldable pub main_setup : MainWorld → Command → List Opt → End
main_setup w command os =
    if is_version command || get_value_flag os name_version
    then ends (pos 0) (prints_version ∷ [])
    else if is_null command
    then ends (pos 1) (prints_usage ∷ [])
    else elim (init w.library w.threads_ok os) [
      | none ↦ ends (pos 1) []
      | some (s, os') ↦ if w.log_init_fails then ends (pos 1) [] else main_command w s command os'
    ]

unfoldable pub main : MainWorld → List Chars → End
main w argv =
    if w.register_fails
    then ends (pos 1) []
    else elim (parse_arguments w.library.files w.general (map (λ t. t.args) w.tests) argv
        w.log_options) [
          | none ↦ ends (pos 1) (prints_usage ∷ [])
          | some (command, os) ↦ main_setup w command os
        ]
