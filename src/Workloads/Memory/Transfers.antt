-- ===== src/Workloads/Memory/Transfers.antt =====
-- How much the memory test transfers.
use my_sqltutorials.Prelude.{
  ℕ, zero, suc, ◌+◌, ◌*◌, ◌%◌, ◌≤◌, ◌<◌, ◌≡◌, inl, inr, ap, sym, subst, arith, Option, none, some,
  List, [], ◌∷◌, leb, if◌then◌else◌, Bool-cases,
}
use my_sqltutorials.Prelude.Words.{u32_mod, add32}
use my_sqltutorials.Workloads.Memory.{MemoryConfig, MemoryState, MemoryRequest, memory_get_request}

-- The requests of `calls` calls, from any threads, one after the other.
abbrev pub requests :
    MemoryConfig → (calls : ℕ) → MemoryState → List (Option MemoryRequest) × MemoryState
requests c zero s = ([], s)
requests c (suc calls) s =
    let (r, s') = memory_get_request c s in let (rs, t) = requests c calls s' in (r ∷ rs, t)

-- The number of requests that are made.
abbrev pub made : List (Option MemoryRequest) → ℕ
made [] = 0
made (none ∷ rs) = made rs
made (some r ∷ rs) = suc (made rs)

-- What a number of calls leaves: the bytes and operations of the requests made, at most one block
-- above the total; and enough calls reach the total.
pub record Transferred (c : MemoryConfig) (calls : ℕ) (s t : MemoryState) (n : ℕ) : Type 0 where
  pub bytes : t.total_bytes ≡ s.total_bytes + n * c.memory_block_size
  pub operations : t.total_ops ≡ (s.total_ops + n) % u32_mod
  pub few : n ≤ calls
  pub full : n < calls → c.memory_total_size ≤ t.total_bytes
  pub tight : 0 < n → t.total_bytes < c.memory_total_size + c.memory_block_size

suc_mul : (n b : ℕ) → suc n * b ≡ b + n * b
suc_mul n b = grind arith

abbrev pub request : MemoryConfig → MemoryRequest
request c = record {
  block_size = c.memory_block_size;
  scope = c.memory_scope;
  type = c.memory_oper;
}

abbrev advanced : MemoryConfig → MemoryState → MemoryState
advanced c s = record {
  total_ops = add32 s.total_ops 1;
  total_bytes = s.total_bytes + c.memory_block_size;
}

last_block :
    (c : MemoryConfig) (calls : ℕ) (s t : MemoryState) (n : ℕ)
    → Transferred c calls (advanced c s) t n
    → s.total_bytes < c.memory_total_size
    → t.total_bytes < c.memory_total_size + c.memory_block_size
last_block c calls s t zero h l = omega (arith, h.bytes)
last_block c calls s t (suc n) h l = h.tight (omega arith)

requests-Transferred :
    (c : MemoryConfig) (calls : ℕ) (s : MemoryState)
    → s.total_ops < u32_mod
    → Transferred c calls s (requests c calls s).1 (made (requests c calls s).0)
unfolding memory_get_request
requests-Transferred c zero s h = record {
  bytes = omega arith;
  operations = omega arith;
  few = omega arith;
  full = λ l. absurd (omega arith);
  tight = λ l. absurd (omega arith);
}
requests-Transferred c (suc calls) s h = elim (Bool-cases (leb c.memory_total_size s.total_bytes)) [
  | inl over ↦
      (let enough : c.memory_total_size ≤ s.total_bytes = ground arith in
        let ih = requests-Transferred c calls s h in
        subst
          (λ (x : Option MemoryRequest × MemoryState).
            Transferred c (suc calls) s (requests c calls x.1).1
              (made (x.0 ∷ (requests c calls x.1).0)))
          (sym (ap (λ b. if b then (none, s) else (some (request c), advanced c s)) over))
          (record {
            bytes = ih.bytes;
            operations = ih.operations;
            few = omega (arith, ih.few);
            full = λ l. omega (arith, ih.bytes);
            tight = ih.tight;
          }))
  | inr under ↦
      (let short : s.total_bytes < c.memory_total_size = ground arith in
        let ih = requests-Transferred c calls (advanced c s) (omega arith) in
        let n = made (requests c calls (advanced c s)).0 in
        let split = suc_mul n c.memory_block_size in
        subst
          (λ (x : Option MemoryRequest × MemoryState).
            Transferred c (suc calls) s (requests c calls x.1).1
              (made (x.0 ∷ (requests c calls x.1).0)))
          (sym (ap (λ b. if b then (none, s) else (some (request c), advanced c s)) under))
          (record {
            bytes = omega (arith, ih.bytes, split);
            operations = omega (arith, ih.operations);
            few = omega (arith, ih.few);
            full = λ l. ih.full (omega arith);
            tight = λ l. last_block c calls s (requests c calls (advanced c s)).1 n ih short;
          }))
]

-- From the start, the calls of memory_get_request make requests of a block each, until the bytes
-- reach the total size; what is transferred exceeds it by less than a block.
pub memory_transfers :
    (c : MemoryConfig) (calls : ℕ)
    → let (rs, t) = requests c calls (record { total_ops = 0; total_bytes = 0 }) in
      Transferred c calls (record { total_ops = 0; total_bytes = 0 }) t (made rs)
memory_transfers c calls =
    requests-Transferred c calls (record { total_ops = 0; total_bytes = 0 }) (omega arith)
