-- ===== src/Scripts/Events.antt =====
-- The events of a script (sb_lua_get_request and sb_lua_op_execute_request of
-- scripting/script_lua.c). What each call of the script's function `event` ends with is an argument.
use my_sqltutorials.Prelude.{
  ℕ, zero, suc, ◌+◌, ◌<◌, ◌≡◌, ◌≢◌, ◌↔◌, inl, inr, Bool-cases, refl, ap, subst, sym, arith, Bool,
  true, false, not, Option, none, some, ◌==◌, leb, ◌&&◌, if◌then◌else◌,
}
use my_sqltutorials.Prelude.Words.{add32}

-- sb_lua_get_request: whether there is a request, and `nevents`.
unfoldable pub sb_lua_get_request : (max_requests nevents : ℕ) → Bool × ℕ
sb_lua_get_request max_requests nevents =
    if not (max_requests == 0) && leb max_requests nevents
    then (false, nevents)
    else (true, add32 nevents 1)

-- The end of a lua_pcall: an error has a value that lua_isnumber accepts, or another.
pub data Pcall : Type 0 where
  returned : Pcall
  raised_number : ℕ → Pcall
  raised_other : Pcall

-- SB_DB_ERROR_RESTART_TRANSACTION
abbrev pub restart_transaction : ℕ
restart_transaction = 1

unfoldable pub restarts : Pcall → Bool
restarts returned = false
restarts (raised_number n) = n == restart_transaction
restarts raised_other = false

-- What the execution of a request does: its result 1, sb_globals.error, whether the event is
-- stopped at the logger and a percentile counted, and the number of calls of `event`.
pub record Executed : Type 0 where
  pub failed : Bool
  pub sets_error : Bool
  pub stops_event : Bool
  pub counts_percentile : Bool
  pub calls : ℕ

abbrev pub succeeds : (calls : ℕ) → Executed
succeeds calls = record {
  failed = false;
  sets_error = false;
  stops_event = true;
  counts_percentile = true;
  calls = calls;
}

abbrev pub fails : (calls : ℕ) → Executed
fails calls = record {
  failed = true;
  sets_error = true;
  stops_event = false;
  counts_percentile = false;
  calls = calls;
}

-- The call behind which there is no other.
unfoldable pub settle_event : Pcall → (calls : ℕ) → Executed
settle_event returned calls = succeeds calls
settle_event (raised_number n) calls = fails calls
settle_event raised_other calls = fails calls

-- The loop of sb_lua_op_execute_request from the n-th call on; `none` is that it still goes on.
unfoldable pub execute_event : (fuel : ℕ) → (event : ℕ → Pcall) → (n : ℕ) → Option Executed
unfolding restarts settle_event
execute_event zero event n = none
execute_event (suc fuel) event n =
    let again = execute_event fuel event (n + 1) in
    if restarts (event n) then again else some (settle_event (event n) (n + 1))

unfoldable pub sb_lua_op_execute_request : (fuel : ℕ) → (event : ℕ → Pcall) → Option Executed
unfolding execute_event
sb_lua_op_execute_request fuel event = execute_event fuel event 0

-- The number that lua_pcall leaves asks for a restart.
abbrev pub IsRestart : Pcall → Type 0
IsRestart p = p ≡ raised_number 1

-- The m-th call is the first that does not ask for a restart.
pub record EndsAt (event : ℕ → Pcall) (m : ℕ) : Type 0 where
  pub before : (i : ℕ) → i < m → IsRestart (event i)
  pub last : ¬ IsRestart (event m)

-- What is to come of an execution whose last call ends with a value, after a number of calls.
pub record IsResult (p : Pcall) (calls : ℕ) (x : Executed) : Type 0 where
  pub as_many : x.calls ≡ calls
  pub failure : (x.failed ≡ true) ↔ (p ≢ returned)
  pub error : x.sets_error ≡ x.failed
  pub event_stopped : x.stops_event ≡ not x.failed
  pub counted : x.counts_percentile ≡ not x.failed

restarts_lem : (p : Pcall) → (restarts p ≡ true) ↔ IsRestart p
unfolding restarts
restarts_lem returned = ((λ e. absurd (ground arith)), (λ e. absurd (ground arith)))
restarts_lem (raised_number n) = ((λ e. ap raised_number (ground arith)), (λ e. ground arith))
restarts_lem raised_other = ((λ e. absurd (ground arith)), (λ e. absurd (ground arith)))

restarts-not : (p : Pcall) → ¬ IsRestart p → restarts p ≡ false
restarts-not p h = elim (Bool-cases (restarts p)) [
  | inl e ↦ absurd (h ((restarts_lem p).0 e))
  | inr e ↦ e
]

settle_event-IsResult : (p : Pcall) (calls : ℕ) → IsResult p calls (settle_event p calls)
unfolding settle_event
settle_event-IsResult returned calls = record {
  as_many = refl;
  failure = ((λ e. absurd (ground arith)), (λ ne. absurd (ne refl)));
  error = refl;
  event_stopped = refl;
  counted = refl;
}
settle_event-IsResult (raised_number n) calls = record {
  as_many = refl;
  failure = ((λ e k. ground arith), (λ ne. refl));
  error = refl;
  event_stopped = refl;
  counted = refl;
}
settle_event-IsResult raised_other calls = record {
  as_many = refl;
  failure = ((λ e k. ground arith), (λ ne. refl));
  error = refl;
  event_stopped = refl;
  counted = refl;
}

loop_lem :
    (d fuel n m : ℕ) (event : ℕ → Pcall)
    → EndsAt event m
    → n + d ≡ m
    → d < fuel
    → execute_event fuel event n ≡ some (settle_event (event m) (m + 1))
unfolding execute_event
loop_lem d zero n m event e s h = absurd (omega arith)
loop_lem zero (suc fuel) n m event e s h =
    let same : n ≡ m = omega arith in
    subst
      (λ k.
        (if restarts (event k)
          then execute_event fuel event (k + 1)
          else some (settle_event (event k) (k + 1)))
        ≡ some (settle_event (event m) (m + 1)))
      (sym same) (rw (restarts-not (event m) e.last) refl)
loop_lem (suc d) (suc fuel) n m event e s h =
    let ih = loop_lem d fuel (n + 1) m event e (omega arith) (omega arith) in
    rw ((restarts_lem (event n)).1 (e.before n (omega arith))) ih

-- Where the m-th call of the script's function is the first, counted from 0, that does not raise
-- the number 1 (SB_DB_ERROR_RESTART_TRANSACTION), a request ends, with more fuel than m, after m +
-- 1 calls. Its result is 1 exactly where that call has raised an error; then sb_globals.error is
-- set, and otherwise, and only then, the event is stopped and its percentile counted.
pub execute_request-EndsAt :
    (fuel m : ℕ) (event : ℕ → Pcall)
    → EndsAt event m
    → m < fuel
    → (x : Executed) × (sb_lua_op_execute_request fuel event ≡ some x)
      × IsResult (event m) (m + 1) x
unfolding sb_lua_op_execute_request
execute_request-EndsAt fuel m event e h = (
  settle_event (event m) (m + 1),
  loop_lem m fuel 0 m event e (omega arith) h,
  settle_event-IsResult (event m) (m + 1),
)

-- A function that asks for a restart at every call is called for ever.
pub execute_request-restarts :
    (fuel : ℕ) (event : ℕ → Pcall)
    → ((i : ℕ) → IsRestart (event i))
    → sb_lua_op_execute_request fuel event ≡ none
unfolding sb_lua_op_execute_request execute_event
execute_request-restarts fuel event h = forever fuel 0
  where
    forever : (fuel n : ℕ) → execute_event fuel event n ≡ none
    forever zero n = refl
    forever (suc fuel) n = rw ((restarts_lem (event n)).1 (h n)) (forever fuel (n + 1))
