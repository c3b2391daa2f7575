-- ===== src/FileIo/Random/Bounds.antt =====
-- Where the random requests point.
use my_sqltutorials.Prelude.{
  ℕ, ◌-◌, ◌*◌, ◌/◌, ◌%◌, ◌<◌, ◌≡◌, refl, ◌∙◌, arith, Bool, true, false, Option, none, some, List,
  [], ◌∷◌, ◌==◌, ◌&&◌, if◌then◌else◌,
}
use native.Mathlib.Nat.{mod-lt, zero-mod, mod-mod_of_dvd, dvd_of_mod-eq-zero}
use my_sqltutorials.Prelude.Words.{u32_mod}
use my_sqltutorials.FileIo.{FileOp, Request, Config, State}
use my_sqltutorials.FileIo.Sequential.{periodic, is_over, is_sync_due}
use my_sqltutorials.FileIo.Sequential.Bounds.{InBounds, IsServable, next_block}
use my_sqltutorials.FileIo.Random.{
  Sampling, Outcome, gives, division_by_zero, waits, max_rnd, sampled, block_request, retry, finish,
  get_rnd_request, take_block, is_busy, rnd_operation, rnd_mode,
}

-- The files make up the total size, and hold a whole number of blocks.
pub record IsTiled (c : Config) : Type 0 where
  pub whole_files : c.total_size ≡ c.num_files * c.file_size
  pub some_bytes : 0 < c.file_size
  pub some_files : 0 < c.num_files
  pub files_fit : c.num_files < u32_mod
  pub some_block : 0 < c.file_block_size
  pub whole_blocks : c.file_size % c.file_block_size ≡ 0

-- The product of a random fraction below one and a size is below the size.
abbrev pub IsFraction : Sampling → Type 0
IsFraction f = (randnum total : ℕ) → 0 < total → randnum < max_rnd → f.scale randnum total < total

sub-mod : (a b : ℕ) → 0 < b → (a - a % b) % b ≡ 0
sub-mod a b h = grind arith

mod-mod : (a b c : ℕ) → 0 < b → 0 < c → a % b ≡ 0 → c % b ≡ 0 → (a % c) % b ≡ 0
mod-mod a b c h l p q = mod-mod_of_dvd b a (dvd_of_mod-eq-zero b q) ∙ p

div-lt : (a b n : ℕ) → 0 < b → a < n * b → a / b < n
div-lt a b n h l = grind arith

module _ (f : Sampling) {c : Config} (t : IsTiled c) (fraction : IsFraction f) where
  total_pos : 0 < c.total_size
  total_pos = grind (arith, t.whole_files)

  sampled-lt : (randnum : ℕ) → randnum < max_rnd → sampled f c randnum < c.num_files * c.file_size
  sampled-lt randnum l = omega (arith, t.whole_files, fraction randnum c.total_size total_pos l)

  sampled-aligned : (randnum : ℕ) → sampled f c randnum % c.file_block_size ≡ 0
  sampled-aligned randnum = sub-mod (f.scale randnum c.total_size) c.file_block_size t.some_block

  -- A random request is for a whole block inside an existing file.
  pub block_request-InBounds :
      (op : FileOp) (randnum : ℕ)
      → randnum < max_rnd
      → InBounds c (block_request f c op randnum)
        × ((block_request f c op randnum).pos % c.file_block_size ≡ 0)
  unfolding block_request
  block_request-InBounds op randnum l =
      let x = sampled f c randnum in
      let aligned : x % c.file_size % c.file_block_size ≡ 0 =
        mod-mod x c.file_block_size c.file_size t.some_block t.some_bytes (sampled-aligned randnum)
          t.whole_blocks in
      (
        record {
          file_exists = omega (
            arith,
            div-lt x c.file_size c.num_files t.some_bytes (sampled-lt randnum l),
            t.files_fit,
          );
          bytes_exist =
              next_block (x % c.file_size) c.file_block_size c.file_size t.some_block aligned
                t.whole_blocks (mod-lt x t.some_bytes);
          not_empty = t.some_block;
        },
        aligned,
      )

-- What holds of a request that is made, and of the numbers that are left.
abbrev pub Yields : (Option Request → State → Type 0) → Outcome → Type 0
Yields P (gives r s rest) = P r s
Yields P division_by_zero = ⊥
Yields P waits = Unit {0}

pub Yields-if :
    (P : Option Request → State → Type 0) (b : Bool) (x y : Outcome)
    → (b ≡ true → Yields P x)
    → (b ≡ false → Yields P y)
    → Yields P (if b then x else y)
Yields-if P true x y h k = h refl
Yields-if P false x y h k = k refl

abbrev pub AllBelow : List ℕ → Type 0
AllBelow [] = Unit {0}
AllBelow (r ∷ rs) = (r < max_rnd) × AllBelow rs

-- The request of a random test: fsyncs and whole blocks of existing files.
abbrev pub IsBlock : Config → Request → Type 0
IsBlock c r = IsServable c r × (r.pos % c.file_block_size ≡ 0)

abbrev pub IsBlock? : Config → Option Request → Type 0
IsBlock? c none = Unit {0}
IsBlock? c (some r) = IsBlock c r

abbrev pub Kept : Config → Option Request → State → Type 0
Kept c r s = IsBlock? c r × (s.fsynced_file < c.num_files)

module _ (f : Sampling) {c : Config} (t : IsTiled c) (fraction : IsFraction f) where
  retry-IsBlock :
      (thread_id : ℕ) (op : FileOp) (s : State) (rands : List ℕ)
      → AllBelow rands
      → s.fsynced_file < c.num_files
      → Yields (Kept c) (retry f c thread_id op s rands)
  unfolding retry take_block block_request
  retry-IsBlock thread_id op s [] below k = tt
  retry-IsBlock thread_id op s (r ∷ rs) below k =
      let q = block_request f c op r in
      Yields-if (Kept c) (c.validate && is_busy thread_id 0 q.file_id q.pos s.per_thread) _ _
        (λ _. retry-IsBlock thread_id op s rs below.1 k)
        (λ _. ground (arith, block_request-InBounds f t fraction op r below.0))

  finish-IsBlock : (s : State) → s.fsynced_file < c.num_files → Kept c (finish c s).0 (finish c s).1
  unfolding finish
  finish-IsBlock s k = ground (arith, mod-lt 0 t.some_block)

  periodic-IsBlock :
      (s : State) → s.fsynced_file < c.num_files → Kept c (periodic c s).0 (periodic c s).1
  unfolding periodic
  periodic-IsBlock s k = ground (arith, zero-mod c.file_block_size, t.files_fit, t.some_files)

  -- Where the total size is that of the files, each a whole number of blocks, and the random
  -- fractions are below one: every request of file_get_rnd_request is for an existing file, within
  -- its bytes and at a multiple of the block size, and the next file to be synced stays an
  -- existing one.
  pub get_rnd_request-IsBlock :
      (thread_id : ℕ) (s : State) (rands : List ℕ)
      → AllBelow rands
      → s.fsynced_file < c.num_files
      → Yields (Kept c) (get_rnd_request f c thread_id s rands)
  unfolding get_rnd_request
  get_rnd_request-IsBlock thread_id s rands below k =
      Yields-if (Kept c) (is_over c s) _ _ (λ _. finish-IsBlock s k)
        λ _.
          Yields-if (Kept c) (is_sync_due c s) _ _ (λ _. periodic-IsBlock s k)
            λ _.
              Yields-if (Kept c) (c.file_size == 0) _ _ (λ e. ground (arith, t.some_bytes))
                λ _. retry-IsBlock thread_id (rnd_operation (rnd_mode f c s)) s rands below k
