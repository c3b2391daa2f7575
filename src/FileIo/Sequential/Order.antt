-- ===== src/FileIo/Sequential/Order.antt =====
-- The bytes of all files, numbered through, in the order of the sequential requests.
use my_sqltutorials.Prelude.{
  ℕ, ◌+◌, ◌*◌, ◌<◌, ◌≡◌, ◌≢◌, ◌⊎◌, inl, inr, refl, ap, ap₂, subst, sym, ◌∙◌, arith, Bool, true,
  false, Option, none, some, ◌==◌, ◌&&◌, if◌then◌else◌, Bool-cases,
}
use my_sqltutorials.Prelude.Words.{u32_mod, add32}
use my_sqltutorials.FileIo.{FileOp, TestMode, Request, Config, State, is_write}
use my_sqltutorials.FileIo.Sequential.{
  rewind, next_request, advance, charge, ready, issued, transfer, finish, periodic, get_seq_request,
  SeqWarning, seq_operation, is_over, is_sync_due,
}
use my_sqltutorials.FileIo.Sequential.Bounds.{IsWalkable, IsCursor, IsWalk, ready-IsCursor}

-- The number of a byte.
abbrev pub offset : Config → (file_id pos : ℕ) → ℕ
offset c file_id pos = file_id * c.file_size + pos

abbrev pub cursor : Config → State → ℕ
cursor c s = offset c s.current_file s.position

abbrev pub first_byte : Config → Request → ℕ
first_byte c r = offset c r.file_id r.pos

-- Behind the byte before `o`, a call makes no request or one to sync, or one for the bytes from `o`
-- on, or from the first byte where `o` is behind the last; and `o'` is behind its last byte.
abbrev pub Ordered : Config → (o : ℕ) → Option Request → (o' : ℕ) → Type 0
Ordered c o none o' = o' ≡ o
Ordered c o (some r) o' =
    ((r.operation ≡ FileOp.fsync) × (o' ≡ o))
    ⊎ ((r.operation ≢ FileOp.fsync)
        × ((first_byte c r ≡ o) ⊎ ((o ≡ c.num_files * c.file_size) × (first_byte c r ≡ 0)))
        × (o' ≡ first_byte c r + r.size))

suc_mul : (n b : ℕ) → (n + 1) * b ≡ n * b + b
suc_mul n b = grind arith

ready-cursor :
    (c : Config) (op : FileOp) (s : State)
    → IsCursor c s
    → (cursor c (ready c op s) ≡ cursor c s)
      ⊎ ((cursor c s ≡ c.num_files * c.file_size) × (cursor c (ready c op s) ≡ 0))
unfolding charge rewind
ready-cursor c op s k = elim (Bool-cases (s.current_file == c.num_files)) [
  | inl e ↦
      let same : s.current_file ≡ c.num_files = ground (arith, e) in
      inr (ap₂ (λ n p. n * c.file_size + p) same (k.at_end same) ∙ omega arith, rw e (omega arith))
  | inr e ↦ inl (rw e refl)
]

advance-cursor :
    (c : Config) (r : Request) (s : State)
    → s.current_file < c.num_files
    → c.num_files < u32_mod
    → cursor c (advance c r s) ≡ cursor c s + r.size
unfolding advance
advance-cursor c r s h l = elim (Bool-cases (s.position + r.size == c.file_size)) [
  | inl e ↦
      let next : add32 s.current_file 1 ≡ s.current_file + 1 = omega arith in
      let ends : s.position + r.size ≡ c.file_size = ground (arith, e) in
      rw e (
        ap (λ n. n * c.file_size + 0) next
        ∙ omega (arith, suc_mul s.current_file c.file_size, ends))
  | inr e ↦ rw e (omega arith)
]

-- The parts of a transfer; the validation leaves the cursor alone.
transfer-request :
    (c : Config) (op : FileOp) (s : State) → (transfer c op s).0 ≡ some (issued c op s)
unfolding transfer
transfer-request c op s = ground arith

either_cursor :
    (c : Config) (b : Bool) (x y : Option Request × Option SeqWarning × State) (k : ℕ)
    → cursor c x.2 ≡ k
    → cursor c y.2 ≡ k
    → cursor c (if b then x else y).2 ≡ k
either_cursor c true x y k p q = p
either_cursor c false x y k p q = q

transfer-cursor :
    (c : Config) (op : FileOp) (s : State)
    → cursor c (transfer c op s).2 ≡ cursor c (advance c (issued c op s) (ready c op s))
unfolding transfer
transfer-cursor c op s = either_cursor c c.validate _ _ _ refl refl

-- The request is made where the cursor stands.
transfer-Ordered :
    (c : Config) (op : FileOp) (s : State)
    → IsWalkable c
    → IsWalk c s
    → op ≢ FileOp.fsync
    → Ordered c (cursor c s) (transfer c op s).0 (cursor c (transfer c op s).2)
unfolding next_request
transfer-Ordered c op s w k ne =
    let here = ready c op s in
    let inside = (ready-IsCursor w s k op).1 in
    let moved = advance-cursor c (issued c op s) here inside w.files_fit in
    subst (λ r. Ordered c (cursor c s) r (cursor c (transfer c op s).2))
      (sym (transfer-request c op s))
      (subst (Ordered c (cursor c s) (some (issued c op s))) (sym (transfer-cursor c op s))
        (inr (ne, ready-cursor c op s k.cursor, moved)))

finish-Ordered :
    (c : Config) (op : FileOp) (s : State)
    → Ordered c (cursor c s) (finish c op s).0 (cursor c (finish c op s).1)
unfolding finish
finish-Ordered c op s = ground arith

periodic-Ordered :
    (c : Config) (s : State) → Ordered c (cursor c s) (periodic c s).0 (cursor c (periodic c s).1)
unfolding periodic
periodic-Ordered c s = inl (refl, ground arith)

not_fsync : (m : TestMode) → seq_operation m ≢ FileOp.fsync
not_fsync TestMode.read e = absurd (ground (arith, e))
not_fsync TestMode.write e = absurd (ground (arith, e))
not_fsync TestMode.rewrite e = absurd (ground (arith, e))
not_fsync TestMode.rnd_read e = absurd (ground (arith, e))
not_fsync TestMode.rnd_write e = absurd (ground (arith, e))
not_fsync TestMode.rnd_rw e = absurd (ground (arith, e))
not_fsync TestMode.mixed e = absurd (ground (arith, e))

either-Ordered :
    (c : Config) (o : ℕ) (b : Bool) (x y : Option Request × Option SeqWarning × State)
    → Ordered c o x.0 (cursor c x.2)
    → Ordered c o y.0 (cursor c y.2)
    → Ordered c o (if b then x else y).0 (cursor c (if b then x else y).2)
either-Ordered c o true x y p q = p
either-Ordered c o false x y p q = q

pub get_seq_request-Ordered :
    (c : Config) (s : State)
    → IsWalkable c
    → IsWalk c s
    → let (r, _, s') = get_seq_request c s in Ordered c (cursor c s) r (cursor c s')
unfolding get_seq_request
get_seq_request-Ordered c s w k =
    let op = seq_operation c.test_mode in
    either-Ordered c (cursor c s) (is_over c s) _ _ (finish-Ordered c op s) (
      either-Ordered c (cursor c s) (is_write op && is_sync_due c s) _ _ (periodic-Ordered c s)
        (transfer-Ordered c op s w k (not_fsync c.test_mode)))
