-- ===== src/Runner/Run/Statistics.antt =====
-- When a run prints the statistics, and when it fails.
use my_sqltutorials.Prelude.{
  ℕ, zero, suc, ◌+◌, ◌≡◌, refl, ap, ◌∙◌, arith, Bool, true, false, not, Option, none, some, List,
  [], ◌∷◌, ◌++◌, ltb, ◌&&◌, ◌||◌, if◌then◌else◌,
}
use my_sqltutorials.Runner.Run.{
  Created, Act, RunWorld, Phase, ◌then◌, does, call, create, create_when, start_threads,
  join_threads, measure, cancel_when, finish_test, run_phases, run_test, runner, report_thread,
  eventgen_thread, checkpoints_thread,
}

abbrev is_stats : Act → Bool
is_stats Act.prints_stats = true
is_stats _ = false

-- Whether the statistics are printed.
abbrev pub printed : List Act → Bool
printed [] = false
printed (a ∷ rest) = is_stats a || printed rest

-- An operation that the test does not have does not fail.
abbrev pub fails : Option Bool → Bool
fails none = false
fails (some failed) = failed

-- No thread of the test fails to start, and no thread before it has set the error.
abbrev pub all_start : RunWorld → (i n : ℕ) → Bool
all_start w i zero = true
all_start w i (suc n) = not (w.error_at i) && (not (w.creation (runner i)) && all_start w (i + 1) n)

-- Whether a thread that is needed can be created.
abbrev pub created : Bool → RunWorld → Created → Bool
created needed w c = not (needed && w.creation c)

abbrev pub helpers_start : RunWorld → Bool
helpers_start w =
    created (ltb 0 w.report_interval) w report_thread
    && (created (ltb 0 w.tx_rate) w eventgen_thread
        && created (ltb 0 w.n_checkpoints) w checkpoints_thread)

-- Everything up to the end of the test's own cleanup has succeeded.
abbrev pub completes : RunWorld → Bool
completes w =
    not (fails w.init)
    && (not (fails w.prepare)
        && (helpers_start w && (all_start w 0 w.num_threads && not (fails w.cleanup))))

-- What a phase prints, and the condition under which the run goes on behind it.
record Prints (p : Phase) (b s : Bool) : Type 0 where
  statistics : printed p.acts ≡ s
  condition : p.goes_on ≡ b

printed-append : (acts more : List Act) → printed (acts ++ more) ≡ printed acts || printed more
printed-append [] more = refl
printed-append (a ∷ acts) more = ground (arith, printed-append acts more)

then-Prints :
    (p q : Phase) (b c s : Bool)
    → Prints p b false
    → Prints q c s
    → Prints (p then q) (b && c) (b && s)
then-Prints p q b c s h k = record {
  statistics =
      ground (arith, h.statistics, h.condition, k.statistics, printed-append p.acts q.acts);
  condition = ground (arith, h.condition, k.condition);
}

call-Prints :
    (a : Act) (o : Option Bool) → is_stats a ≡ false → Prints (call a o) (not (fails o)) false
unfolding call
call-Prints a none e = record { statistics = refl; condition = refl }
call-Prints a (some b) e = record { statistics = ground arith; condition = refl }

create-Prints :
    (needed : Bool) (w : RunWorld) (c : Created)
    → Prints (create_when needed w c) (created needed w c) false
unfolding create
create-Prints true w c = record { statistics = refl; condition = refl }
create-Prints false w c = record { statistics = refl; condition = refl }

stop-Prints :
    (b : Bool) (q : Phase) (c : Bool)
    → Prints q c false
    → Prints (if b then record { acts = []; goes_on = false } else q) (not b && c) false
stop-Prints true q c h = record { statistics = refl; condition = refl }
stop-Prints false q c h = h

and_false : (b : Bool) → (b && false) ≡ false
and_false true = refl
and_false false = refl

start_threads-Prints :
    (w : RunWorld) (i n : ℕ) → Prints (start_threads w i n) (all_start w i n) false
unfolding start_threads
start_threads-Prints w i zero = record { statistics = refl; condition = refl }
start_threads-Prints w i (suc n) =
    let h =
      then-Prints (create w (runner i)) (start_threads w (i + 1) n) _ _ _
        (create-Prints true w (runner i)) (start_threads-Prints w (i + 1) n) in
    stop-Prints (w.error_at i) _ _
      (record { statistics = h.statistics ∙ and_false _; condition = h.condition })

join_threads-printed :
    (i n : ℕ) (acts : List Act) → printed (join_threads i n ++ acts) ≡ printed acts
unfolding join_threads
join_threads-printed i zero acts = refl
join_threads-printed i (suc n) acts = join_threads-printed (i + 1) n acts

-- An act that depends on a condition.
printed-when :
    (b : Bool) (a : Act) (acts : List Act)
    → printed ((if b then a ∷ [] else []) ++ acts) ≡ (b && is_stats a) || printed acts
printed-when true a acts = refl
printed-when false a acts = refl

cancel_when-printed :
    (b : Bool) (c : Created) (acts : List Act) → printed (cancel_when b c ++ acts) ≡ printed acts
cancel_when-printed true c acts = refl
cancel_when-printed false c acts = refl

measure-Prints : (w : RunWorld) → Prints (measure w) true false
unfolding measure
measure-Prints w = record {
  statistics =
      printed-when w.force_shutdown (Act.sets_alarm w.alarm_after) _
      ∙ ground (
        arith,
        join_threads-printed 0 w.num_threads
            (Act.stops_timers ∷ Act.silences_reports ∷ Act.clears_alarm ∷ []),
      );
  condition = refl;
}

last_cancel : (b : Bool) → printed (cancel_when b checkpoints_thread) ≡ false
last_cancel true = refl
last_cancel false = refl

rest-printed :
    (w : RunWorld)
    → printed (
        (if w.has_done then Act.calls_done ∷ [] else [])
        ++ (cancel_when (ltb 0 w.report_interval) report_thread
            ++ (cancel_when (ltb 0 w.tx_rate) eventgen_thread
                ++ cancel_when (ltb 0 w.n_checkpoints) checkpoints_thread)))
      ≡ false
rest-printed w =
    printed-when w.has_done Act.calls_done _
    ∙ ap (λ b. (w.has_done && false) || b)
        (cancel_when-printed (ltb 0 w.report_interval) report_thread _
          ∙ cancel_when-printed (ltb 0 w.tx_rate) eventgen_thread _
          ∙ last_cancel (ltb 0 w.n_checkpoints))
    ∙ ap (λ b. b || false) (and_false w.has_done)

and_or : (b : Bool) → ((b && true) || false) ≡ b
and_or true = refl
and_or false = refl

finish_test-Prints :
    (w : RunWorld) → Prints (finish_test w) true (w.has_print_stats && not w.error_behind)
unfolding finish_test
finish_test-Prints w = record {
  statistics =
      printed-when (w.has_print_stats && not w.error_behind) Act.prints_stats _
      ∙ ap (λ b. ((w.has_print_stats && not w.error_behind) && true) || b) (rest-printed w)
      ∙ and_or (w.has_print_stats && not w.error_behind);
  condition = refl;
}

-- The conditions of the phases, one by one.
gather :
    (a b c d e f g s : Bool)
    → (a && (true && (b && (c && (d && (e && (f && (true && (g && s)))))))))
      ≡ ((a && (b && ((c && (d && e)) && (f && g)))) && s)
gather false b c d e f g s = refl
gather true false c d e f g s = refl
gather true true false d e f g s = refl
gather true true true false e f g s = refl
gather true true true true false f g s = refl
gather true true true true true false g s = refl
gather true true true true true true false s = refl
gather true true true true true true true s = refl

result_of : (b e : Bool) → (if (b && true) then e else true) ≡ (not b || e)
result_of true e = refl
result_of false e = refl

-- run_test gives 0 exactly when the test's init, prepare and cleanup succeed (or are missing), every
-- thread that it needs is created, no thread has set the error before the last is created, and none
-- has at the end; and it prints the statistics exactly when all of these hold and the test has them.
pub run_test_lem :
    (w : RunWorld)
    → ((run_test w).0 ≡ (not (completes w) || w.error_behind))
      × (printed (run_test w).1 ≡ (completes w && (w.has_print_stats && not w.error_behind)))
unfolding run_test run_phases
run_test_lem w =
    let h =
      then-Prints (call Act.calls_init w.init) _ _ _ _ (call-Prints Act.calls_init w.init refl) (
        then-Prints (does (Act.prints_mode ∷ Act.inits_timers ∷ [])) _ true _ _
          (record { statistics = refl; condition = refl })
          (then-Prints (call Act.calls_prepare w.prepare) _ _ _ _
            (call-Prints Act.calls_prepare w.prepare refl)
            (then-Prints _ _ _ _ _ (create-Prints (ltb 0 w.report_interval) w report_thread) (
              then-Prints _ _ _ _ _ (create-Prints (ltb 0 w.tx_rate) w eventgen_thread) (
                then-Prints _ _ _ _ _ (create-Prints (ltb 0 w.n_checkpoints) w checkpoints_thread) (
                  then-Prints _ _ _ _ _ (start_threads-Prints w 0 w.num_threads) (
                    then-Prints _ _ _ _ _ (measure-Prints w) (
                      then-Prints _ _ _ _ _ (call-Prints Act.calls_cleanup w.cleanup refl)
                        (finish_test-Prints w))))))))) in
    let all =
      gather (not (fails w.init)) (not (fails w.prepare))
        (created (ltb 0 w.report_interval) w report_thread)
        (created (ltb 0 w.tx_rate) w eventgen_thread)
        (created (ltb 0 w.n_checkpoints) w checkpoints_thread) (all_start w 0 w.num_threads)
        (not (fails w.cleanup)) in
    (
      ap (λ b. if b then w.error_behind else true) (h.condition ∙ all true)
          ∙ result_of (completes w) w.error_behind,
      h.statistics ∙ all (w.has_print_stats && not w.error_behind),
    )
