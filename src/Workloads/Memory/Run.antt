-- ===== src/Workloads/Memory/Run.antt =====
-- A run of the memory test: its set-up, and the requests that the threads take and execute.
use my_sqltutorials.Prelude.{
  ℕ, ◌<◌, ◌≡◌, ◌≢◌, ◌⊎◌, Bool, true, false, Option, none, some, List, [], ◌∷◌, if◌then◌else◌, ◌>>=◌,
}
use my_sqltutorials.Workloads.Memory.{
  MemoryOper, MemoryConfig, MemoryState, MemoryRequest, Buffers, memory_get_request,
  memory_execute_request,
}
use my_sqltutorials.Workloads.Memory.Setup.{MemoryArgs, memory_init}

-- A thread takes a request and executes it, with the number that sb_rnd() takes; the flag is an error, which ends
-- the run.
unfoldable pub execute_if :
    MemoryConfig
    → (scale : ℕ → ℕ → ℕ) → (thread_id random : ℕ) → Option MemoryRequest
    → Buffers
    → Option (Bool × Buffers)
unfolding memory_execute_request
execute_if c scale thread_id random none b = some (false, b)
execute_if c scale thread_id random (some r) b = memory_execute_request c scale random r thread_id b

-- The turns of the threads, one after the other.
unfoldable pub run_turns :
    MemoryConfig
    → (scale : ℕ → ℕ → ℕ) → List (ℕ × ℕ)
    → MemoryState
    → Buffers
    → Option (Bool × MemoryState × Buffers)
unfolding execute_if memory_get_request
run_turns c scale [] s b = some (false, s, b)
run_turns c scale ((thread_id, random) ∷ turns) s b = do
  (failed, b') ← execute_if c scale thread_id random (memory_get_request c s).0 b
  let rest = run_turns c scale turns (memory_get_request c s).1 b' in
      if failed then some (true, (memory_get_request c s).1, b') else rest

-- The program from memory_init on.
unfoldable pub run_memory :
    (allocates : ℕ → Bool) (num_threads : ℕ) (scale : ℕ → ℕ → ℕ) (turns : List (ℕ × ℕ))
    → MemoryArgs
    → Option (Bool × MemoryState × Buffers)
unfolding memory_init run_turns
run_memory allocates num_threads scale turns a = do
  (c, b) ← memory_init allocates num_threads a
  run_turns c scale turns (record { total_ops = 0; total_bytes = 0 }) b

-- The turns are of threads that there are.
abbrev pub AreTurns : (num_threads : ℕ) → List (ℕ × ℕ) → Type 0
AreTurns num_threads [] = Unit {0}
AreTurns num_threads ((thread_id, random) ∷ turns) =
    (thread_id < num_threads) × AreTurns num_threads turns

-- What the random access does is defined.
abbrev pub CanAccess : MemoryConfig → Type 0
CanAccess c = (c.memory_access_rnd ≡ false) ⊎ (c.memory_oper ≢ MemoryOper.none)

abbrev start : MemoryState
start = record { total_ops = 0; total_bytes = 0 }
