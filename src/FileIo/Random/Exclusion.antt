-- ===== src/FileIo/Random/Exclusion.antt =====
-- With validation on, no two threads work on one block.
use mathlib.Core.Bool.{and-false}
use native.Mathlib.Decide.{ℕ_discrete}
use my_sqltutorials.Prelude.{
  ℕ, zero, suc, ◌+◌, ◌≡◌, ◌≢◌, refl, sym, ◌∙◌, arith, Bool, true, false, some, List, [], ◌∷◌, ◌==◌,
  ◌&&◌, if◌then◌else◌, ◌⊎◌, inl, inr, subst, set, get_elem?, get_elem?-set_ne, get_elem?-set_self,
}
use my_sqltutorials.FileIo.{FileOp, Request, Config, State, Block}
use my_sqltutorials.FileIo.Sequential.{periodic, is_over, is_sync_due}
use my_sqltutorials.FileIo.Random.{
  Sampling, Outcome, gives, block_request, retry, finish, get_rnd_request, take_block, is_busy,
  rnd_operation, rnd_mode,
}

abbrev pub block_of : Request → Block
block_of r = record { file_id = r.file_id; pos = r.pos }

-- A block that is not busy is that of no other thread.
not_busy :
    (thread_id i f p : ℕ) (bs : List Block) (k : ℕ) (b : Block)
    → is_busy thread_id i f p bs ≡ false
    → i + k ≢ thread_id
    → get_elem? bs k ≡ some b
    → b ≢ record { file_id = f; pos = p }
unfolding is_busy
not_busy thread_id i f p [] k b h ne e = cc
not_busy thread_id i f p (a ∷ bs) zero b h ne e = ground arith
not_busy thread_id i f p (a ∷ bs) (suc k) b h ne e =
    not_busy thread_id (suc i) f p bs k b (ground arith) (omega arith) e

-- The blocks of different threads differ.
abbrev pub IsExclusive : List Block → Type 0
IsExclusive bs =
    (j k : ℕ) (a b : Block) → j ≢ k → get_elem? bs j ≡ some a → get_elem? bs k ≡ some b → a ≢ b

module _ (bs : List Block) (t : ℕ) (v : Block)
    (free : (k : ℕ) (b : Block) → t ≢ k → get_elem? bs k ≡ some b → b ≢ v) where
  -- The block that thread `t` took is that of no other thread.
  set_free :
      (j k : ℕ) (a b : Block)
      → t ≡ j
      → j ≢ k
      → get_elem? (set bs t v) j ≡ some a
      → get_elem? (set bs t v) k ≡ some b
      → b ≢ a
  set_free j k a b e ne ej ek eq =
      let ne' : t ≢ k = λ q. ne (sym e ∙ q) in
      let av : a ≡ v =
        get_elem?-set_self bs t v a (subst (λ k. get_elem? (set bs t v) k ≡ some a) (sym e) ej) in
      free k b ne' (sym (get_elem?-set_ne bs t k v ne') ∙ ek) (eq ∙ av)

  set-IsExclusive : IsExclusive bs → IsExclusive (set bs t v)
  set-IsExclusive h j k a b ne ej ek eq = elim (ℕ_discrete t j) [
    | yes e ↦ set_free j k a b e ne ej ek (sym eq)
    | no f ↦ elim (ℕ_discrete t k) [
      | yes e ↦ set_free k j b a e (λ q. ne (sym q)) ek ej eq
      | no g ↦
          h j k a b ne (sym (get_elem?-set_ne bs t j v f) ∙ ej)
            (sym (get_elem?-set_ne bs t k v g) ∙ ek) eq
    ]
  ]

take_block-IsExclusive :
    (thread_id : ℕ) (r : Request) (s : State)
    → is_busy thread_id 0 r.file_id r.pos s.per_thread ≡ false
    → IsExclusive s.per_thread
    → IsExclusive (take_block thread_id r s).per_thread
unfolding take_block
take_block-IsExclusive thread_id r s free h =
    set-IsExclusive s.per_thread thread_id (block_of r)
      (λ k b ne e. not_busy thread_id 0 r.file_id r.pos s.per_thread k b free (omega arith) e) h

-- The blocks of the threads that an outcome leaves.
abbrev pub LeavesExclusive : Outcome → Type 0
LeavesExclusive (gives r s rest) = IsExclusive s.per_thread
LeavesExclusive _ = Unit {0}

LeavesExclusive-if :
    (b : Bool) (x y : Outcome)
    → (b ≡ true → LeavesExclusive x)
    → (b ≡ false → LeavesExclusive y)
    → LeavesExclusive (if b then x else y)
LeavesExclusive-if true x y h k = h refl
LeavesExclusive-if false x y h k = k refl

finish_per_thread : (c : Config) (s : State) → (finish c s).1.per_thread ≡ s.per_thread
unfolding finish
finish_per_thread c s = ground arith

periodic_per_thread : (c : Config) (s : State) → (periodic c s).1.per_thread ≡ s.per_thread
unfolding periodic
periodic_per_thread c s = ground arith

module _ (f : Sampling) (c : Config) (on : c.validate ≡ true) where
  retry-IsExclusive :
      (thread_id : ℕ) (op : FileOp) (s : State) (rands : List ℕ)
      → IsExclusive s.per_thread
      → LeavesExclusive (retry f c thread_id op s rands)
  unfolding retry
  retry-IsExclusive thread_id op s [] h = tt
  retry-IsExclusive thread_id op s (r ∷ rs) h =
      let q = block_request f c op r in
      LeavesExclusive-if (c.validate && is_busy thread_id 0 q.file_id q.pos s.per_thread) _ _
        (λ _. retry-IsExclusive thread_id op s rs h)
        (λ e. take_block-IsExclusive thread_id q s (ground (arith, on)) h)

  -- With validation on, a request never gives a thread the block of another thread: if the blocks of
  -- the threads differ before it, they differ after it.
  pub get_rnd_request-IsExclusive :
      (thread_id : ℕ) (s : State) (rands : List ℕ)
      → IsExclusive s.per_thread
      → LeavesExclusive (get_rnd_request f c thread_id s rands)
  unfolding get_rnd_request
  get_rnd_request-IsExclusive thread_id s rands h =
      LeavesExclusive-if (is_over c s) _ _ (λ _. rw (finish_per_thread c s) h)
        λ _.
          LeavesExclusive-if (is_sync_due c s) _ _ (λ _. rw (periodic_per_thread c s) h)
            λ _.
              LeavesExclusive-if (c.file_size == 0) _ _ (λ _. tt)
                λ _. retry-IsExclusive thread_id (rnd_operation (rnd_mode f c s)) s rands h

-- A request is made.
abbrev pub Makes : Outcome → Type 0
Makes (gives (some r) s rest) = Unit {0}
Makes _ = ⊥

-- One of the random numbers stands for a block that no other thread works on.
abbrev pub HasFree : Sampling → Config → ℕ → FileOp → State → List ℕ → Type 0
HasFree f c thread_id op s [] = ⊥
HasFree f c thread_id op s (r ∷ rs) =
    (is_busy thread_id 0 (block_request f c op r).file_id (block_request f c op r).pos s.per_thread
      ≡ false)
    ⊎ HasFree f c thread_id op s rs

retry_if : (b : Bool) (x y : Outcome) → Makes x → Makes y → Makes (if b then x else y)
retry_if true x y h k = h
retry_if false x y h k = k

-- The loop at `retry` ends with a request as soon as the random numbers hit a block that is free.
pub retry-Makes :
    (f : Sampling) (c : Config) (thread_id : ℕ) (op : FileOp) (s : State) (rands : List ℕ)
    → HasFree f c thread_id op s rands
    → Makes (retry f c thread_id op s rands)
unfolding retry
retry-Makes f c thread_id op s [] h = h
retry-Makes f c thread_id op s (r ∷ rs) (inl e) = rw (e, and-false) tt
retry-Makes f c thread_id op s (r ∷ rs) (inr h) =
    let q = block_request f c op r in
    retry_if (c.validate && is_busy thread_id 0 q.file_id q.pos s.per_thread) _
      (gives (some q) (take_block thread_id q s) rs) (retry-Makes f c thread_id op s rs h) tt
