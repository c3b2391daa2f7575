-- ===== src/Drivers/Expand/Reserves.antt =====
-- One round of the loop: the room it makes and what it puts there.
use my_sqltutorials.Prelude.{
  ℕ, zero, suc, ◌+◌, ◌*◌, ◌<◌, ◌≤◌, ◌^◌, ◌≡◌, ◌⊎◌, inl, inr, ltb→lt, refl, ap, sym, ◌∙◌, arith,
  Bool, true, false, some, [], ◌∷◌, ◌++◌, ltb, leb, ◌||◌, if◌then◌else◌, Chars, length,
  length-append, Bool-cases,
}
use native.Mathlib.Nat.{mul_assoc, pow-succ'}
use my_sqltutorials.Drivers.Expand.{
  Buffer, done, empty_buffer, reserve, fits, put_char, put_value, next_buflen,
}

-- A text of at most `n` characters has room behind the position or is to be moved.
pub record IsOpen (n : ℕ) (b : Buffer) : Type 0 where
  pub within : length b.text ≤ n
  pub bounded : b.buflen ≤ 2 * n + 256
  pub wanted : b.need_realloc ≡ true → b.buflen ≤ n
  pub started :
      (b.buflen ≡ 0) × (length b.text ≡ 0) × (b.need_realloc ≡ true)
      ⊎ (256 ≤ b.buflen) × (length b.text < b.buflen)

pub record IsReady (n : ℕ) (b : Buffer) : Type 0 where
  pub within : length b.text ≤ n
  pub bounded : b.buflen ≤ 2 * n + 256
  pub least : 256 ≤ b.buflen
  pub room : length b.text + 1 < b.buflen
  pub settled : b.need_realloc ≡ false

double_pow : (x f : ℕ) → x * 2 ^ suc f ≡ x * 2 * 2 ^ f
double_pow x f = ap (λ (y : ℕ). x * y) (pow-succ' 2 f) ∙ sym (mul_assoc x 2 (2 ^ f))

abbrev pub reserved : Buffer → Buffer
reserved b =
    if leb b.buflen (length b.text + 1) || b.need_realloc
    then record b { buflen = next_buflen b.buflen; need_realloc = false }
    else b

module _ (n : ℕ) (small : n < 2 ^ 29) (realloc : ℕ → Bool)
    (memory : (k : ℕ) → k ≤ 2 * n + 256 → realloc k ≡ true) where
  pub reserve-done :
      (b : Buffer) → IsOpen n b → (reserve realloc b ≡ done (reserved b)) × IsReady n (reserved b)
  unfolding reserve next_buflen
  reserve-done b h = ground (arith, memory (b.buflen * 2), memory 256)

  fits_lem : (k : ℕ) (b : Buffer) → IsReady n b → fits k b ≡ ltb (length b.text + k) b.buflen
  fits_lem k b h = ground arith

  put_fits :
      (fuel : ℕ) (t : Chars) (b r : Buffer)
      → reserve realloc b ≡ done r
      → fits (length t) r ≡ true
      → put_value (suc fuel) realloc (some t) b ≡ done (record r { text = r.text ++ t })
  unfolding put_value
  put_fits fuel t b r e f = ground arith

  put_again :
      (fuel : ℕ) (t : Chars) (b r : Buffer)
      → reserve realloc b ≡ done r
      → fits (length t) r ≡ false
      → put_value (suc fuel) realloc (some t) b
        ≡ put_value fuel realloc (some t) (record r { need_realloc = true })
  unfolding put_value
  put_again fuel t b r e f = ground arith

  pub text-reserved : (b : Buffer) → (reserved b).text ≡ b.text
  text-reserved b = ground arith

  doubled :
      (b : Buffer)
      → IsReady n b
      → b.buflen ≤ n
      → (reserved (record b { need_realloc = true })).buflen ≡ b.buflen * 2
  unfolding next_buflen
  doubled b h k = ground arith

  pub append-IsOpen :
      (r : Buffer) (t : Chars)
      → IsReady n r
      → length r.text + length t ≤ n
      → length r.text + length t < r.buflen
      → IsOpen n (record r { text = r.text ++ t })
  append-IsOpen r t h k l = ground (arith, length-append r.text t)

  again-IsOpen :
      (r : Buffer) → IsReady n r → r.buflen ≤ n → IsOpen n (record r { need_realloc = true })
  again-IsOpen r h k = ground arith

  fits_iff :
      (t : Chars) (r : Buffer)
      → IsReady n r
      → (fits (length t) r ≡ true) × (length r.text + length t < r.buflen)
        ⊎ (fits (length t) r ≡ false) × (r.buflen ≤ length r.text + length t)
  fits_iff t r h = elim (Bool-cases (ltb (length r.text + length t) r.buflen)) [
    | inl e ↦ inl (fits_lem (length t) r h ∙ e, ltb→lt _ _ e)
    | inr e ↦ inr (fits_lem (length t) r h ∙ e, ground arith)
  ]

  -- A value that fits in the whole text is put after some doublings of the buffer.
  pub put_value-done :
      (fuel : ℕ) (t : Chars) (b r : Buffer)
      → reserve realloc b ≡ done r
      → IsReady n r
      → length r.text + length t ≤ n
      → n < r.buflen * 2 ^ fuel
      → (r' : Buffer) × (put_value (suc fuel) realloc (some t) b ≡ done r')
        × (r'.text ≡ r.text ++ t)
        × IsOpen n r'
        × (0 < r'.buflen)
  put_value-done zero t b r e h k m = elim (fits_iff t r h) [
    | inl (f, l) ↦ (
      record r { text = r.text ++ t },
      put_fits 0 t b r e f,
      refl,
      append-IsOpen r t h k l,
      omega arith,
    )
    | inr (f, l) ↦ absurd (omega arith)
  ]
  put_value-done (suc fuel) t b r e h k m = elim (fits_iff t r h) [
    | inl (f, l) ↦ (
      record r { text = r.text ++ t },
      put_fits (suc fuel) t b r e f,
      refl,
      append-IsOpen r t h k l,
      omega arith,
    )
    | inr (f, l) ↦
        let b' = record r { need_realloc = true } in
        let (e', h') = reserve-done b' (again-IsOpen r h (omega arith)) in
        let twice = doubled r h (omega arith) in
        let same : (reserved b').text ≡ r.text = text-reserved b' in
        let (r', p, q, o, z) =
          put_value-done fuel t b' (reserved b') e' h' (rw same k)
            (rw twice (rw (double_pow r.buflen fuel) at m)) in
        (r', put_again (suc fuel) t b r e f ∙ p, q ∙ ap (λ s. s ++ t) same, o, z)
  ]

  pub put_char-done :
      (c : ℕ) (r : Buffer)
      → IsReady n r
      → put_char c r ≡ done (record r { text = r.text ++ c ∷ [] })
  unfolding put_char
  put_char-done c r h = ground arith

pub empty-IsOpen : (n : ℕ) → IsOpen n empty_buffer
empty-IsOpen n = record {
  within = omega arith;
  bounded = omega arith;
  wanted = λ e. omega arith;
  started = inl (refl, refl, refl);
}

pub filled :
    (n : ℕ) (r : Buffer) {t : Chars} → IsOpen n r → 0 < r.buflen → r.text ≡ t → length t < r.buflen
filled n r o z e = ground (arith, ap length e)
