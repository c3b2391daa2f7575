-- ===== src/Runner/Tests.antt =====
-- Runs of the runner's parts.
use my_sqltutorials.Prelude.{
  ℕ, suc, ◌+◌, ◌*◌, ◌/◌, ◌≤◌, ◌<◌, ◌≡◌, ◌⊎◌, refl, arith, true, false, none, some, List, [], ◌∷◌,
  ◌++◌, map, length, Chars,
}
use my_sqltutorials.Prelude.Int.{pos, ◌+ℤ◌}
use my_sqltutorials.Options.{
  Opt, ArgType, add_option, update_option, find_option, parse_value, opt_name_cmp, convert_dashes,
}
use my_sqltutorials.Options.Set.{after_file, set_option}
use my_sqltutorials.Logger.Text.{same_text}
use my_sqltutorials.Runner.Names.{
  name_test, name_rand_type, name_thread_stack_size, text_special, command_run,
}
use my_sqltutorials.Runner.Queue.{max_queue_len}
use my_sqltutorials.Runner.Queue.Fifo.{
  QueueStep, adds, takes, queue_steps, nothing_handed, queue_steps-in_order,
}
use my_sqltutorials.Runner.Schedule.{ReportRound, report_round, report_round-IsNext}
use my_sqltutorials.Runner.Threads.{Round, Effects, rounds, round, get_request, execute_request}
use my_sqltutorials.Runner.Threads.Concurrency.{rounds-concurrency}
use my_sqltutorials.Runner.Run.{RunWorld, run_test}
use my_sqltutorials.Runner.Run.Statistics.{printed, run_test_lem}
use my_sqltutorials.Runner.Setup.{Library, Setup, init}
use my_sqltutorials.Runner.Arguments.{
  Command, parse_command, is_option, split_value, set_argument, parse_args,
}
use my_sqltutorials.Runner.Main.{Test, MainWorld}

abbrev three_steps : List QueueStep
three_steps = adds 10 ∷ adds 20 ∷ takes ∷ adds 30 ∷ []

queue_steps-in_order_example :
    ((queue_steps three_steps (nothing_handed (λ i. 0))).generated
      ≡ (queue_steps three_steps (nothing_handed (λ i. 0))).taken
        ++ map
            (queue_steps three_steps (nothing_handed (λ i. 0))).queue.event_time
            (queue_steps three_steps (nothing_handed (λ i. 0))).queue.event_queue)
    × ((queue_steps three_steps (nothing_handed (λ i. 0))).queue.event_queue_length
        ≡ length (queue_steps three_steps (nothing_handed (λ i. 0))).queue.event_queue)
    × ((queue_steps three_steps (nothing_handed (λ i. 0))).queue.event_queue_length ≤ max_queue_len)
queue_steps-in_order_example = queue_steps-in_order three_steps (λ i. 0)

report_round-IsNext_example :
    (r : ReportRound) × (report_round 1 5 10 27 ≡ some r)
    × (27 + r.pause_ns ≡ r.prev_ns)
    × (0 < r.pause_ns)
    × ((k : ℕ) × (r.prev_ns ≡ 5 + suc k * 10) × ((k ≡ 0) ⊎ (r.prev_ns ≤ 37)))
report_round-IsNext_example =
    report_round-IsNext 1 5 10 27 (omega arith) (omega arith) (omega arith)

-- A request that fails.
abbrev failing : Round
failing = record {
  queue_is_full = false;
  queue_start_time = 5;
  taken_at = 9;
  asked = some true;
  failed = some true;
  done_at = 0;
  error = false;
}

abbrev no_effects : Effects
no_effects = record { concurrency = pos 0; queue_time = 0; executed = 0 }

rounds-concurrency_example :
    (rounds true 0 (failing ∷ []) no_effects).1.concurrency ≡ pos 0 +ℤ pos 1
unfolding rounds round get_request execute_request
rounds-concurrency_example = rounds-concurrency true 0 (failing ∷ []) no_effects

abbrev two_runners : RunWorld
two_runners = record {
  num_threads = 2;
  report_interval = 1;
  tx_rate = 0;
  n_checkpoints = 0;
  force_shutdown = false;
  alarm_after = 0;
  init = some false;
  prepare = none;
  creation = λ c. false;
  error_at = λ i. false;
  cleanup = none;
  has_print_stats = true;
  has_done = true;
  error_behind = false;
}

run_test_lem_example :
    ((run_test two_runners).0 ≡ false) × (printed (run_test two_runners).1 ≡ true)
run_test_lem_example = run_test_lem two_runners

abbrev arguments : List Chars
arguments = (45 ∷ 45 ∷ 116 ∷ 101 ∷ 115 ∷ 116 ∷ 61 ∷ 99 ∷ 112 ∷ 117 ∷ []) ∷ command_run ∷ []

abbrev options_of_test : List Opt
options_of_test =
    record { name = name_test; type = ArgType.string; values = (99 ∷ 112 ∷ 117 ∷ []) ∷ [] } ∷ []

arguments_state :
    parse_args (λ name. none) arguments Command.null [] ≡ some (Command.run, options_of_test)
unfolding parse_args set_argument split_value is_option parse_command same_text set_option
    after_file add_option update_option find_option parse_value opt_name_cmp convert_dashes
arguments_state = refl

abbrev cpu : Test
cpu = record {
  sname = (99 ∷ 112 ∷ 117 ∷ []);
  args = some [];
  has_help = false;
  prepare_command = none;
  cleanup_command = none;
}

-- A library whose numbers are all one.
abbrev ones : Library
ones = record {
  strtol = λ s. (pos 1, []);
  strcmp = same_text;
  strcasecmp = same_text;
  percent_of = λ a b. a * b / 100;
  qsort = λ cmp xs. xs;
  files = λ name. none;
}

abbrev one_run : MainWorld
one_run = record {
  tests = cpu ∷ [];
  register_fails = false;
  log_options = [];
  general =
      record {
        arg_name = (110 ∷ 117 ∷ 109 ∷ 45 ∷ 116 ∷ 104 ∷ 114 ∷ 101 ∷ 97 ∷ 100 ∷ 115 ∷ []);
        arg_type = ArgType.int;
        arg_value = some (49 ∷ []);
      }
      ∷ record {
        arg_name = name_thread_stack_size;
        arg_type = ArgType.size;
        arg_value = some (54 ∷ 52 ∷ 75 ∷ []);
      }
      ∷ record {
        arg_name = name_rand_type;
        arg_type = ArgType.string;
        arg_value = some text_special;
      }
      ∷ [];
  library = ones;
  threads_ok = true;
  log_init_fails = false;
  script_load = λ name. none;
  run_world = λ s t. two_runners;
}
