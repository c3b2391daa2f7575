-- ===== src/Workloads/Tests.antt =====
-- The tests of the processor at small numbers.
use my_sqltutorials.Prelude.{
  true, false, refl, ◌/◌, some, none, false, ℕ, ◌*◌, ◌≡◌, arith, Bool, leb,
}
use my_sqltutorials.Workloads.Memory.{MemoryScope, MemoryOper, MemoryConfig}
use my_sqltutorials.FileIo.Random.{max_rnd}
use my_sqltutorials.Workloads.Memory.Setup.{
  MemoryArgs, memory_init, set_up, parse_options, parse_scope, parse_oper, parse_access_mode,
  allocate, allocate_scope, allocate_each, word_local, word_write, word_rnd,
}
use my_sqltutorials.Logger.Text.{same_text}
use my_sqltutorials.Workloads.Cpu.{cpu_execute}
use my_sqltutorials.Workloads.Cpu.Primes.{IsRoot, cpu_execute_lem}
use my_sqltutorials.Workloads.Shared.{passes, adds}
use my_sqltutorials.Workloads.Shared.Requests.{Reaches, start, next}

abbrev root : ℕ → ℕ → Bool
root l c = leb (l * l) c

root-IsRoot : IsRoot root
root-IsRoot l c = ground arith

-- 3, 5, 7, 11, 13, 17 and 19
cpu_execute_example : cpu_execute root 20 ≡ some 7
cpu_execute_example = cpu_execute_lem root 20 root-IsRoot

-- Two threads make two requests where one is allowed.
overshoot : Reaches 1 2 (record { req_performed = 2; between = 0 })
overshoot =
    next
      (next
        (next (next start (passes 0 0 (omega arith) (omega arith)))
          (passes 0 1 (omega arith) (omega arith)))
        (adds 0 1))
      (adds 1 0)

abbrev in_blocks : MemoryConfig
in_blocks = record {
  memory_block_size = 8;
  memory_total_size = 20;
  memory_scope = MemoryScope.local;
  memory_oper = MemoryOper.write;
  memory_access_rnd = true;
}

abbrev quotient : ℕ → ℕ → ℕ
quotient rand n = rand * n / max_rnd

abbrev local_args : (block_size : ℕ) → MemoryArgs
local_args block_size = record {
  block_size = block_size;
  total_size = 20;
  scope = word_local;
  oper = word_write;
  access_mode = word_rnd;
}

-- The third allocation is of the buffer of the second thread.
init_fails : memory_init (λ i. leb i 1) 2 (local_args 8) ≡ none
unfolding memory_init set_up parse_options parse_scope parse_oper parse_access_mode allocate
    allocate_scope allocate_each same_text
init_fails = refl
