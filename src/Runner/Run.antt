-- ===== src/Runner/Run.antt =====
-- A run of a test (run_test): the calls that it makes, in order. What the test's operations, the
-- creation of threads and the other threads answer is an argument.
pub mod Statistics
use my_sqltutorials.Prelude.{
  ℕ, zero, suc, ◌+◌, ◌-◌, ◌*◌, ◌/◌, ◌%◌, ◌^◌, ◌≤◌, ◌<◌, ◌≡◌, ◌≢◌, ◌↔◌, ◌⊎◌, inl, inr, refl, ap, sym,
  ◌∙◌, arith, Bool, true, false, not, Option, none, some, List, [], ◌∷◌, ◌++◌, map, ltb, leb, ◌==◌,
  ◌&&◌, ◌||◌, if◌then◌else◌, Bool-cases, length, get_elem?, set, take, drop, replicate,
  length-append, get_elem?-set_ne, get_elem?-set_self, foldr, Chars,
}

-- The threads that the main thread creates.
pub data Created : Type 0 where
  report_thread eventgen_thread checkpoints_thread : Created
  runner : ℕ → Created

pub data Act : Type 0 where
  calls_init prints_mode inits_timers calls_prepare starts_timers opens_gate : Act
  stops_timers silences_reports clears_alarm calls_cleanup prints_stats calls_done : Act
  sets_alarm : ℕ → Act
  creates joins cancels : Created → Act

-- Options of the run, and answers: a missing operation of the test is `none`, an operation or a
-- creation that fails is `true`; `error_at` is `sb_globals.error` before a thread is created.
pub record RunWorld : Type 0 where
  pub num_threads : ℕ
  pub report_interval : ℕ
  pub tx_rate : ℕ
  pub n_checkpoints : ℕ
  pub force_shutdown : Bool
  pub alarm_after : ℕ
  pub init : Option Bool
  pub prepare : Option Bool
  pub creation : Created → Bool
  pub error_at : ℕ → Bool
  pub cleanup : Option Bool
  pub has_print_stats : Bool
  pub has_done : Bool
  pub error_behind : Bool

-- A part of the run: what it does, and whether the run goes on behind it.
pub record Phase : Type 0 where
  pub acts : List Act
  pub goes_on : Bool

infixr 40 ◌then◌
abbrev pub ◌then◌ : Phase → Phase → Phase
p then q = if p.goes_on then record { acts = p.acts ++ q.acts; goes_on = q.goes_on } else p

abbrev pub does : List Act → Phase
does acts = record { acts = acts; goes_on = true }

-- An operation of the test, which the test may not have.
unfoldable pub call : Act → Option Bool → Phase
call a none = does []
call a (some failed) = record { acts = a ∷ []; goes_on = not failed }

unfoldable pub create : RunWorld → Created → Phase
create w c = record { acts = creates c ∷ []; goes_on = not (w.creation c) }

abbrev pub create_when : Bool → RunWorld → Created → Phase
create_when needed w c = if needed then create w c else does []

-- The loop that starts the test threads, with `n` threads left from the thread `i` on.
unfoldable pub start_threads : RunWorld → (i n : ℕ) → Phase
start_threads w i zero = does []
start_threads w i (suc n) =
    let rest = create w (runner i) then start_threads w (i + 1) n in
    if w.error_at i then record { acts = []; goes_on = false } else rest

unfoldable pub join_threads : (i n : ℕ) → List Act
join_threads i zero = []
join_threads i (suc n) = joins (runner i) ∷ join_threads (i + 1) n

-- From the start of the timers to the end of the alarm.
unfoldable pub measure : RunWorld → Phase
measure w = does (
    (starts_timers ∷ (if w.force_shutdown then sets_alarm w.alarm_after ∷ [] else []))
    ++ (opens_gate
        ∷ (join_threads 0 w.num_threads ++ (stops_timers ∷ silences_reports ∷ clears_alarm ∷ []))))

-- `pthread_cancel` succeeds, so the thread is joined.
abbrev pub cancel_when : Bool → Created → List Act
cancel_when created c = if created then cancels c ∷ joins c ∷ [] else []

-- The statistics, the end of the test and the end of the threads for reports and events.
unfoldable pub finish_test : RunWorld → Phase
finish_test w = does (
    (if w.has_print_stats && not w.error_behind then prints_stats ∷ [] else [])
    ++ ((if w.has_done then calls_done ∷ [] else [])
        ++ (cancel_when (ltb 0 w.report_interval) report_thread
            ++ (cancel_when (ltb 0 w.tx_rate) eventgen_thread
                ++ cancel_when (ltb 0 w.n_checkpoints) checkpoints_thread))))

unfoldable pub run_phases : RunWorld → Phase
run_phases w =
    call calls_init w.init
    then does (prints_mode ∷ inits_timers ∷ [])
    then call calls_prepare w.prepare
    then create_when (ltb 0 w.report_interval) w report_thread
    then create_when (ltb 0 w.tx_rate) w eventgen_thread
    then create_when (ltb 0 w.n_checkpoints) w checkpoints_thread
    then start_threads w 0 w.num_threads
    then measure w
    then call calls_cleanup w.cleanup
    then finish_test w

-- The flag is the result 1, and the list is what run_test has done.
unfoldable pub run_test : RunWorld → Bool × List Act
run_test w = let p = run_phases w in (if p.goes_on then w.error_behind else true, p.acts)
