-- ===== src/Runner/Setup.antt =====
-- The set-up of a run from the options (init). `none` is the end of the program with status 1: an
-- invalid value, or memory that is not there. The log messages and the parameters of the Pareto
-- distribution are left out.
pub mod Checkpoints
mod Tests
use my_sqltutorials.Prelude.{
  ℕ, zero, suc, ◌+◌, ◌-◌, ◌*◌, ◌/◌, ◌%◌, ◌^◌, ◌≤◌, ◌<◌, ◌≡◌, ◌≢◌, ◌↔◌, ◌⊎◌, inl, inr, refl, ap, sym,
  ◌∙◌, arith, Bool, true, false, not, Option, none, some, List, [], ◌∷◌, ◌++◌, map, ltb, leb, ◌==◌,
  ◌&&◌, ◌||◌, if◌then◌else◌, Bool-cases, length, get_elem?, set, take, drop, replicate,
  length-append, get_elem?-set_ne, get_elem?-set_self, foldr, Chars,
}
use my_sqltutorials.Prelude.Int.{ℤ, pos, negsuc, ltb_ℤ}
use my_sqltutorials.Prelude.Words.{u32_mod, to_u32, signed32, sub32}
use my_sqltutorials.Options.Set.{set_option}
use my_sqltutorials.Options.{
  Opt, is_zero, find_option, opt_to_int, opt_to_size, get_value_flag, get_value_string,
}
use my_sqltutorials.Runner.Names.{
  name_num_threads, name_max_requests, name_max_time, name_forced_shutdown, name_thread_stack_size,
  name_debug, name_verbosity, name_validate, name_rand_init, name_rand_seed, name_rand_type,
  name_rand_spec_iter, name_rand_spec_pct, name_rand_spec_res, name_tx_rate, name_report_interval,
  name_report_checkpoints, text_off, text_five, text_uniform, text_gaussian, text_special,
  text_pareto,
}

infixl 5 ◌>>=◌ ◌>>◌
abbrev pub ◌>>=◌ {ℓ κ} : {A : Type ℓ} {B : Type κ} → Option A → (A → Option B) → Option B
none >>= f = none
some a >>= f = f a

abbrev pub ◌>>◌ {ℓ} : {B : Type ℓ} → Option (Unit {0}) → Option B → Option B
m >> k = m >>= λ _. k

abbrev pub guard : Bool → Option (Unit {0})
guard true = some tt
guard false = none

-- MAX_CHECKPOINTS
abbrev pub max_checkpoints : ℕ
max_checkpoints = 256

-- The functions of the C library, `strcmp` and `strcasecmp` as tests of equality, and the product
-- of the timeout with the time limit as a percentage; and the texts of the files that
-- fopen opens.
pub record Library : Type 0 where
  pub strtol : Chars → ℤ × Chars
  pub strcmp : Chars → Chars → Bool
  pub strcasecmp : Chars → Chars → Bool
  pub percent_of : ℕ → ℕ → ℕ
  pub qsort : (ℕ → ℕ → ℤ) → List ℕ → List ℕ
  pub files : Chars → Option Chars

pub data Distribution : Type 0 where
  dist_uniform dist_gaussian dist_special dist_pareto : Distribution

-- What init sets: fields of `sb_globals` and static variables.
pub record Setup : Type 0 where
  pub num_threads : ℕ
  pub max_requests : ℕ
  pub max_time : ℕ
  pub force_shutdown : Bool
  pub timeout : ℕ
  pub thread_stack_size : ℤ
  pub debug : Bool
  pub validate : Bool
  pub rand_init : Bool
  pub rand_seed : ℤ
  pub rand_type : Distribution
  pub rand_iter : ℕ
  pub rand_pct : ℕ
  pub rand_res : ℕ
  pub tx_rate : ℕ
  pub report_interval : ℕ
  pub checkpoints : List ℕ

-- The wrapped difference, as an `int`.
unfoldable pub checkpoint_cmp : ℕ → ℕ → ℤ
checkpoint_cmp a b = signed32 (sub32 a b)

-- sb_get_value_int, sb_get_value_size and sb_get_value_list; the code does not test whether the list is there, and
-- one that is not is empty here.
unfoldable pub get_value_int : (Chars → ℤ × Chars) → List Opt → Chars → Option ℤ
get_value_int strtol os name = elim (find_option os name) [
  | none ↦ some (pos 0)
  | some o ↦ opt_to_int strtol o
]

unfoldable pub get_value_size : List Opt → Chars → ℕ
get_value_size os name = elim (find_option os name) [ none ↦ 0 | some o ↦ opt_to_size o ]

unfoldable pub get_value_list : List Opt → Chars → List Chars
get_value_list os name = elim (find_option os name) [ none ↦ [] | some o ↦ o.values ]

abbrev starts_with_percent : Chars → Bool
starts_with_percent [] = false
starts_with_percent (c ∷ s) = c == 37

abbrev pub is_empty : Chars → Bool
is_empty [] = true
is_empty (c ∷ s) = false

-- With debug, the verbosity is set, if there is such an option.
unfoldable pub verbose : (files : Chars → Option Chars) → List Opt → List Opt
verbose files os = elim (find_option os name_verbosity) [
  | none ↦ os
  | some o ↦ (set_option files os o.name (some text_five) o.type).1
]

module _ (l : Library) where
  open l use {strtol, strcmp, strcasecmp, percent_of, qsort}

  -- Whether a shutdown is forced, and after how many seconds behind the time limit.
  unfoldable pub parse_shutdown : (max_time : ℕ) → Option Chars → Option (Bool × ℕ)
  parse_shutdown max_time none = some (true, max_time / 20)
  parse_shutdown max_time (some tmp) =
      let (value, rest) = strtol tmp in
      if strcasecmp tmp text_off
      then some (false, 0)
      else if starts_with_percent rest
      then some (true, percent_of (to_u32 value) max_time)
      else if is_empty tmp || not (is_empty rest)
      then none
      else some (true, to_u32 value)

  unfoldable pub parse_rand_type : Chars → Option Distribution
  parse_rand_type s =
      if strcmp s text_uniform
      then some dist_uniform
      else if strcmp s text_gaussian
      then some dist_gaussian
      else if strcmp s text_special
      then some dist_special
      else if strcmp s text_pareto
      then some dist_pareto
      else none

  -- A checkpoint is a whole number that an `unsigned int` can hold.
  unfoldable pub parse_checkpoint : Chars → Option ℕ
  parse_checkpoint s =
      let (value, rest) = strtol s in
      if not (is_empty rest) || ltb_ℤ value (pos 0) || ltb_ℤ (pos (u32_mod - 1)) value
      then none
      else some (to_u32 value)

  -- The loop over the values, behind `cs`.
  unfoldable pub add_checkpoints : List ℕ → List Chars → Option (List ℕ)
  add_checkpoints cs [] = some cs
  add_checkpoints cs (v ∷ vs) = elim (parse_checkpoint v) [
    | none ↦ none
    | some c ↦
        if ltb max_checkpoints (length cs + 1) then none else add_checkpoints (cs ++ c ∷ []) vs
  ]

  unfoldable pub parse_checkpoints : List Chars → Option (List ℕ)
  parse_checkpoints vs = do
    cs ← add_checkpoints [] vs
    some (if ltb 0 (length cs) then qsort checkpoint_cmp cs else cs)

  -- `threads_ok` says whether the memory for the threads is there.
  -- Without a rand-type, which has a default, the code compares a null pointer: `none` as well.
  unfoldable pub init : (threads_ok : Bool) → List Opt → Option (Setup × List Opt)
  init threads_ok os = do
    num_threads ← get_value_int strtol os name_num_threads
    guard (not (to_u32 num_threads == 0))
    max_requests ← get_value_int strtol os name_max_requests
    max_time ← get_value_int strtol os name_max_time
    (force_shutdown, timeout) ←
        (if ltb 0 (to_u32 max_time)
          then parse_shutdown (to_u32 max_time) (get_value_string os name_forced_shutdown)
          else some (false, 0))
    guard threads_ok
    let thread_stack_size = signed32 (get_value_size os name_thread_stack_size % u32_mod)
    guard (ltb_ℤ (pos 0) thread_stack_size)
    let debug = get_value_flag os name_debug
    let os' = (if debug then verbose l.files os else os)
    rand_seed ← get_value_int strtol os' name_rand_seed
    guard (not (get_value_flag os' name_rand_init) || is_zero rand_seed)
    s ← get_value_string os' name_rand_type
    rand_type ← parse_rand_type s
    rand_iter ← get_value_int strtol os' name_rand_spec_iter
    rand_pct ← get_value_int strtol os' name_rand_spec_pct
    rand_res ← get_value_int strtol os' name_rand_spec_res
    tx_rate ← get_value_int strtol os' name_tx_rate
    report_interval ← get_value_int strtol os' name_report_interval
    checkpoints ← parse_checkpoints (get_value_list os' name_report_checkpoints)
    some (
      record {
        num_threads = to_u32 num_threads;
        max_requests = to_u32 max_requests;
        max_time = to_u32 max_time;
        force_shutdown = force_shutdown;
        timeout = timeout;
        thread_stack_size = thread_stack_size;
        debug = debug;
        validate = get_value_flag os' name_validate;
        rand_init = get_value_flag os' name_rand_init;
        rand_seed = rand_seed;
        rand_type = rand_type;
        rand_iter = to_u32 rand_iter;
        rand_pct = to_u32 rand_pct;
        rand_res = to_u32 rand_res;
        tx_rate = to_u32 tx_rate;
        report_interval = to_u32 report_interval;
        checkpoints = checkpoints;
      },
      os',
    )
