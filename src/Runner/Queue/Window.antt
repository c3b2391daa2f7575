-- ===== src/Runner/Queue/Window.antt =====
-- The elements of `queue_array` that are linked stand next to each other, in a circle.
use my_sqltutorials.Prelude.{
  ℕ, zero, suc, ◌+◌, ◌%◌, ◌≤◌, ◌<◌, ◌≡◌, refl, ap, ap₂, sym, ◌∙◌, arith, false, List, [], ◌∷◌, ◌++◌,
  map, ◌==◌, if◌then◌else◌, length,
}
use my_sqltutorials.Runner.Queue.{write, next_index, max_queue_len}

-- The indices of `n` elements from the one with number `a` on.
abbrev pub window : ℕ → ℕ → List ℕ
window a zero = []
window a (suc n) = (a % max_queue_len) ∷ window (suc a) n

plus_zero : (a : ℕ) → a + 0 ≡ a
plus_zero a = omega arith

plus_suc : (a n : ℕ) → a + suc n ≡ suc a + n
plus_suc a n = omega arith

pub window-append : (a n : ℕ) → window a n ++ ((a + n) % max_queue_len) ∷ [] ≡ window a (suc n)
window-append a zero = ap (λ m. (m % max_queue_len) ∷ []) (plus_zero a)
window-append a (suc n) =
    ap (λ m. (a % max_queue_len) ∷ (window (suc a) n ++ (m % max_queue_len) ∷ [])) (plus_suc a n)
    ∙ ap (λ l. (a % max_queue_len) ∷ l) (window-append (suc a) n)

pub length-window : (a n : ℕ) → length (window a n) ≡ n
length-window a zero = refl
length-window a (suc n) = ap suc (length-window (suc a) n)

-- Two numbers less than the length apart stand for different elements.
other_element :
    (a m : ℕ) → a < m → m < a + max_queue_len → m % max_queue_len == a % max_queue_len ≡ false
other_element a m h k = ground arith

-- Writing to the element behind a window that is not full leaves its times alone.
pub map-write :
    (f : ℕ → ℕ) (a n m v : ℕ)
    → a + n ≤ m
    → m < a + max_queue_len
    → map (write f (m % max_queue_len) v) (window a n) ≡ map f (window a n)
map-write f a zero m v h k = refl
map-write f a (suc n) m v h k =
    ap₂ (λ b l. (if b then v else f (a % max_queue_len)) ∷ l) (other_element a m (omega arith) k)
      (map-write f (suc a) n m v (omega arith) (omega arith))

map-append : (f : ℕ → ℕ) (xs ys : List ℕ) → map f (xs ++ ys) ≡ map f xs ++ map f ys
map-append f [] ys = refl
map-append f (x ∷ xs) ys = ap (λ l. f x ∷ l) (map-append f xs ys)

write_self : (f : ℕ → ℕ) (i v : ℕ) → write f i v i ≡ v
write_self f i v = ground arith

pub window-times :
    (f : ℕ → ℕ) (a n i v : ℕ)
    → n < max_queue_len
    → i ≡ (a + n) % max_queue_len
    → map (write f i v) (window a (suc n)) ≡ map f (window a n) ++ v ∷ []
window-times f a n i v h e =
    let j = (a + n) % max_queue_len in
    ap (λ k. map (write f k v) (window a (suc n))) e
    ∙ ap (map (write f j v)) (sym (window-append a n))
    ∙ map-append (write f j v) (window a n) (j ∷ [])
    ∙ ap₂ (λ l x. l ++ x ∷ []) (map-write f a n (a + n) v (omega arith) (omega arith))
        (write_self f j v)

pub next_is : (i a n : ℕ) → i ≡ (a + n) % max_queue_len → next_index i ≡ (a + suc n) % max_queue_len
next_is i a n e = ground arith
