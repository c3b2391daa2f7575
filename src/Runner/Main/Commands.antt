-- ===== src/Runner/Main/Commands.antt =====
-- When the program runs a test, and with which status it ends then.
use my_sqltutorials.Prelude.{◌≡◌, Bool, true, false, some, List, [], ◌∷◌, if◌then◌else◌, Chars}
use my_sqltutorials.Prelude.Int.{ℤ, pos}
use my_sqltutorials.Options.{Opt, get_value_string}
use my_sqltutorials.Runner.Names.{name_test}
use my_sqltutorials.Runner.Arguments.{Command}
use my_sqltutorials.Runner.Setup.{Setup}
use my_sqltutorials.Runner.Run.{run_test}
use my_sqltutorials.Runner.Main.{Test, MainAct, MainWorld, load_test}

-- Whether a test was run.
abbrev pub ran : List MainAct → Bool
ran [] = false
ran (MainAct.runs_test ∷ acts) = true
ran (a ∷ acts) = ran acts

abbrev pub status_of : Bool → ℤ
status_of failed = if failed then pos 1 else pos 0

-- What a test that was run must have met behind the set-up.
record Runs (w : MainWorld) (s : Setup) (command : Command) (os : List Opt) (status : ℤ)
    : Type 0 where
  pub is_run : command ≡ Command.run
  pub name : Chars
  pub test : Test
  pub named : get_value_string os name_test ≡ some name
  pub loaded : load_test w name ≡ some test
  pub ended : status ≡ status_of (run_test (w.run_world s test)).0
