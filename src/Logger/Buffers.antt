-- ===== src/Logger/Buffers.antt =====
-- The texts that the buffers of log_text, log_timestamp and log_errno end with.
use my_sqltutorials.Prelude.{
  ℕ, zero, suc, ◌-◌, ◌≤◌, ◌<◌, ◌≡◌, refl, ap, sym, ◌∙◌, arith, Bool, true, false, some, List, [],
  ◌∷◌, ◌++◌, ltb, ◌==◌, if◌then◌else◌, length, take, Chars,
}
use my_sqltutorials.Prelude.Int.{pos}
use my_sqltutorials.Logger.{
  Printf, Errno, logs, text_buffer_size, newline, end_line, log_text_buffer, log_timestamp_buffer,
  log_errno, stamp, add_error,
}

-- What C says of snprintf: the length of the whole text, and the part of it that fits.
abbrev pub Prints : Printf → Chars → Type 0
Prints printf s = (size : ℕ) → 0 < size → printf size ≡ (pos (length s), take (size - 1) s)

zero_minus : (n : ℕ) → 0 ≡ 0 - n
zero_minus n = omega arith

minus_zero : (n : ℕ) → n ≡ n - 0
minus_zero n = omega arith

suc_minus : (n m : ℕ) → n - m ≡ suc n - suc m
suc_minus n m = omega arith

take-append : (n : ℕ) (s t : Chars) → take n (s ++ t) ≡ take n s ++ take (n - length s) t
take-append zero s t = ap (λ n. take n t) (zero_minus (length s))
take-append (suc n) [] t = ap (λ m. take m t) (minus_zero (suc n))
take-append (suc n) (c ∷ s) t =
    ap (λ l. c ∷ l) (take-append n s t ∙ ap (λ m. take n s ++ take m t) (suc_minus n (length s)))

pub take-all : {A : Type 0} (n : ℕ) (s : List A) → length s ≤ n → take n s ≡ s
take-all zero [] h = refl
take-all zero (c ∷ s) h = absurd (omega arith)
take-all (suc n) [] h = refl
take-all (suc n) (c ∷ s) h = ap (λ l. c ∷ l) (take-all n s (omega arith))

if_false : {A : Type 0} (b : Bool) (x y : A) → b ≡ false → (if b then x else y) ≡ y
if_false true x y h = cc
if_false false x y h = refl

long_test : (n : ℕ) → n < text_buffer_size → ltb text_buffer_size n ≡ false
long_test n h = ground arith

end_line-take :
    (printf : Printf) (s : Chars) (size : ℕ)
    → Prints printf s
    → 0 < size
    → end_line (printf size) size ≡ take (size - 1) (s ++ newline)
unfolding end_line
end_line-take printf s size h k =
    ap (λ r. end_line r size) (h size k)
    ∙ ap (λ n. take (size - 1) s ++ take n newline) (ground arith)
    ∙ sym (take-append (size - 1) s newline)

-- The text that log_text passes on is the formatted message and a newline, cut to the 4095
-- characters that fit, where vsnprintf does what C says.
pub log_text_buffer-take :
    (printf : Printf) (s : Chars)
    → Prints printf s
    → log_text_buffer printf ≡ take (text_buffer_size - 1) (s ++ newline)
unfolding log_text_buffer
log_text_buffer-take printf s h = end_line-take printf s text_buffer_size h (omega arith)

-- The text that log_timestamp passes on is the time, the formatted message and a newline, cut to the
-- 4095 characters that fit, where snprintf does what C says and the time alone is shorter than that.
pub log_timestamp_buffer-take :
    (time printf : Printf) (t s : Chars)
    → Prints time t
    → Prints printf s
    → length t < text_buffer_size
    → log_timestamp_buffer time printf ≡ some (take (text_buffer_size - 1) (t ++ (s ++ newline)))
unfolding log_timestamp_buffer stamp
log_timestamp_buffer-take time printf t s h k l =
    let all : take 4095 t ≡ t = take-all 4095 t (omega arith) in
    let room : text_buffer_size - length t - 1 ≡ 4095 - length t = omega arith in
    let body : end_line (printf (text_buffer_size - length t)) (text_buffer_size - length t)
        ≡ take (4095 - length t) (s ++ newline) =
      end_line-take printf s (text_buffer_size - length t) k (omega arith)
      ∙ ap (λ n. take n (s ++ newline)) room in
    let whole : take 4095 (t ++ (s ++ newline))
        ≡ take 4095 t ++ take (4095 - length t) (s ++ newline) =
      take-append 4095 t (s ++ newline) in
    ap (λ r. stamp r printf) (h text_buffer_size (omega arith))
    ∙ if_false (ltb text_buffer_size (length t)) _ _ (long_test (length t) l)
    ∙ ap some (ap (λ b. take 4095 t ++ b) body ∙ sym whole)

less_one : (n : ℕ) → text_buffer_size - n - 1 ≡ 4095 - n
less_one n = omega arith

by_length :
    (n : ℕ) (x y : Chars)
    → (n < text_buffer_size → x ≡ y)
    → (if n == text_buffer_size
        then Errno.drops
        else if ltb text_buffer_size n
        then Errno.overflows
        else logs x)
      ≡ (if ltb n text_buffer_size
          then logs y
          else if n == text_buffer_size
          then Errno.drops
          else Errno.overflows)
by_length n x y h = ground arith

-- Where the printf functions do what C says, log_errno passes on a message that is shorter than the
-- buffer, with the text of the error behind it, cut to the characters that fit; it drops a message
-- exactly as long as the buffer, and it writes behind the buffer for every longer one.
pub log_errno_lem :
    (printf tail : Printf) (s t : Chars)
    → Prints printf s
    → Prints tail t
    → log_errno printf tail ≡ (
        if ltb (length s) text_buffer_size
        then logs (take (text_buffer_size - 1) (s ++ t))
        else if length s == text_buffer_size
        then Errno.drops
        else Errno.overflows)
unfolding log_errno add_error
log_errno_lem printf tail s t h k =
    ap (λ r. add_error r tail) (h text_buffer_size (omega arith))
    ∙ by_length (length s) _ _ (λ l.
      ap (λ b. take 4095 s ++ b.1) (k (text_buffer_size - length s) (omega arith))
      ∙ ap (λ n. take 4095 s ++ take n t) (less_one (length s))
      ∙ sym (take-append 4095 s t))

pub length-take_le : {A : Type 0} (n : ℕ) (s : List A) → length (take n s) ≤ n
length-take_le zero s = omega arith
length-take_le (suc n) [] = omega arith
length-take_le (suc n) (c ∷ s) = omega (arith, length-take_le n s)
