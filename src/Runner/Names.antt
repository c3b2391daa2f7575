-- ===== src/Runner/Names.antt =====
-- The names and values of options, and the commands, that sysbench.c spells out.
use my_sqltutorials.Prelude.{[], ◌∷◌, Chars}

-- num-threads
abbrev pub name_num_threads : Chars
name_num_threads = 110 ∷ 117 ∷ 109 ∷ 45 ∷ 116 ∷ 104 ∷ 114 ∷ 101 ∷ 97 ∷ 100 ∷ 115 ∷ []

-- max-requests
abbrev pub name_max_requests : Chars
name_max_requests = 109 ∷ 97 ∷ 120 ∷ 45 ∷ 114 ∷ 101 ∷ 113 ∷ 117 ∷ 101 ∷ 115 ∷ 116 ∷ 115 ∷ []

-- max-time
abbrev pub name_max_time : Chars
name_max_time = 109 ∷ 97 ∷ 120 ∷ 45 ∷ 116 ∷ 105 ∷ 109 ∷ 101 ∷ []

-- forced-shutdown
abbrev pub name_forced_shutdown : Chars
name_forced_shutdown =
    102 ∷ 111 ∷ 114 ∷ 99 ∷ 101 ∷ 100 ∷ 45 ∷ 115 ∷ 104 ∷ 117 ∷ 116 ∷ 100 ∷ 111 ∷ 119 ∷ 110 ∷ []

-- thread-stack-size
abbrev pub name_thread_stack_size : Chars
name_thread_stack_size =
    116 ∷ 104 ∷ 114 ∷ 101 ∷ 97 ∷ 100 ∷ 45 ∷ 115 ∷ 116 ∷ 97 ∷ 99 ∷ 107 ∷ 45 ∷ 115 ∷ 105 ∷ 122 ∷ 101
    ∷ []

-- debug
abbrev pub name_debug : Chars
name_debug = 100 ∷ 101 ∷ 98 ∷ 117 ∷ 103 ∷ []

-- verbosity
abbrev pub name_verbosity : Chars
name_verbosity = 118 ∷ 101 ∷ 114 ∷ 98 ∷ 111 ∷ 115 ∷ 105 ∷ 116 ∷ 121 ∷ []

-- validate
abbrev pub name_validate : Chars
name_validate = 118 ∷ 97 ∷ 108 ∷ 105 ∷ 100 ∷ 97 ∷ 116 ∷ 101 ∷ []

-- rand-init
abbrev pub name_rand_init : Chars
name_rand_init = 114 ∷ 97 ∷ 110 ∷ 100 ∷ 45 ∷ 105 ∷ 110 ∷ 105 ∷ 116 ∷ []

-- rand-seed
abbrev pub name_rand_seed : Chars
name_rand_seed = 114 ∷ 97 ∷ 110 ∷ 100 ∷ 45 ∷ 115 ∷ 101 ∷ 101 ∷ 100 ∷ []

-- rand-type
abbrev pub name_rand_type : Chars
name_rand_type = 114 ∷ 97 ∷ 110 ∷ 100 ∷ 45 ∷ 116 ∷ 121 ∷ 112 ∷ 101 ∷ []

-- rand-spec-iter
abbrev pub name_rand_spec_iter : Chars
name_rand_spec_iter =
    114 ∷ 97 ∷ 110 ∷ 100 ∷ 45 ∷ 115 ∷ 112 ∷ 101 ∷ 99 ∷ 45 ∷ 105 ∷ 116 ∷ 101 ∷ 114 ∷ []

-- rand-spec-pct
abbrev pub name_rand_spec_pct : Chars
name_rand_spec_pct = 114 ∷ 97 ∷ 110 ∷ 100 ∷ 45 ∷ 115 ∷ 112 ∷ 101 ∷ 99 ∷ 45 ∷ 112 ∷ 99 ∷ 116 ∷ []

-- rand-spec-res
abbrev pub name_rand_spec_res : Chars
name_rand_spec_res = 114 ∷ 97 ∷ 110 ∷ 100 ∷ 45 ∷ 115 ∷ 112 ∷ 101 ∷ 99 ∷ 45 ∷ 114 ∷ 101 ∷ 115 ∷ []

-- tx-rate
abbrev pub name_tx_rate : Chars
name_tx_rate = 116 ∷ 120 ∷ 45 ∷ 114 ∷ 97 ∷ 116 ∷ 101 ∷ []

-- report-interval
abbrev pub name_report_interval : Chars
name_report_interval =
    114 ∷ 101 ∷ 112 ∷ 111 ∷ 114 ∷ 116 ∷ 45 ∷ 105 ∷ 110 ∷ 116 ∷ 101 ∷ 114 ∷ 118 ∷ 97 ∷ 108 ∷ []

-- report-checkpoints
abbrev pub name_report_checkpoints : Chars
name_report_checkpoints =
    114 ∷ 101 ∷ 112 ∷ 111 ∷ 114 ∷ 116 ∷ 45 ∷ 99 ∷ 104 ∷ 101 ∷ 99 ∷ 107 ∷ 112 ∷ 111 ∷ 105 ∷ 110 ∷ 116
    ∷ 115 ∷ []

-- test
abbrev pub name_test : Chars
name_test = 116 ∷ 101 ∷ 115 ∷ 116 ∷ []

-- version
abbrev pub name_version : Chars
name_version = 118 ∷ 101 ∷ 114 ∷ 115 ∷ 105 ∷ 111 ∷ 110 ∷ []

-- off
abbrev pub text_off : Chars
text_off = 111 ∷ 102 ∷ 102 ∷ []

-- 5
abbrev pub text_five : Chars
text_five = 53 ∷ []

-- uniform
abbrev pub text_uniform : Chars
text_uniform = 117 ∷ 110 ∷ 105 ∷ 102 ∷ 111 ∷ 114 ∷ 109 ∷ []

-- gaussian
abbrev pub text_gaussian : Chars
text_gaussian = 103 ∷ 97 ∷ 117 ∷ 115 ∷ 115 ∷ 105 ∷ 97 ∷ 110 ∷ []

-- special
abbrev pub text_special : Chars
text_special = 115 ∷ 112 ∷ 101 ∷ 99 ∷ 105 ∷ 97 ∷ 108 ∷ []

-- pareto
abbrev pub text_pareto : Chars
text_pareto = 112 ∷ 97 ∷ 114 ∷ 101 ∷ 116 ∷ 111 ∷ []

-- prepare
abbrev pub command_prepare : Chars
command_prepare = 112 ∷ 114 ∷ 101 ∷ 112 ∷ 97 ∷ 114 ∷ 101 ∷ []

-- run
abbrev pub command_run : Chars
command_run = 114 ∷ 117 ∷ 110 ∷ []

-- help
abbrev pub command_help : Chars
command_help = 104 ∷ 101 ∷ 108 ∷ 112 ∷ []

-- cleanup
abbrev pub command_cleanup : Chars
command_cleanup = 99 ∷ 108 ∷ 101 ∷ 97 ∷ 110 ∷ 117 ∷ 112 ∷ []
