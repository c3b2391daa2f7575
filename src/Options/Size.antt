-- ===== src/Options/Size.antt =====
-- sb_opt_to_size against the number and the modifier that a string shows.
use my_sqltutorials.Prelude.{
  ℕ, ◌+◌, ◌-◌, ◌*◌, ◌%◌, ◌^◌, ◌≤◌, ◌<◌, ◌≡◌, ◌⊎◌, refl, ap, ◌∙◌, arith, Option, none, some, [], ◌∷◌,
  ◌++◌, ◌==◌, ◌||◌, if◌then◌else◌, Chars,
}
use my_sqltutorials.Prelude.Words.{u64_mod, add64, sub64}
use my_sqltutorials.Options.{scan_size, scale_size, string_to_size}

-- The value of a row of decimal digits, behind a number.
abbrev pub decimal : ℕ → Chars → ℕ
decimal n [] = n
decimal n (c ∷ s) = decimal (n * 10 + (c - 48)) s

abbrev pub AllDigits : Chars → Type 0
AllDigits [] = Unit {0}
AllDigits (c ∷ s) = ((48 ≤ c) × (c ≤ 57)) × AllDigits s

digit_step :
    (n c : ℕ)
    → 48 ≤ c
    → c ≤ 57
    → sub64 (add64 (n % u64_mod * 10 % u64_mod) c) 48 ≡ (n * 10 + (c - 48)) % u64_mod
digit_step n c h l = omega arith

scan-decimal :
    (n : ℕ) (s rest : Chars)
    → AllDigits s
    → scan_size (n % u64_mod) (s ++ rest) ≡ scan_size (decimal n s % u64_mod) rest
unfolding scan_size
scan-decimal n [] rest h = refl
scan-decimal n (c ∷ s) rest h =
    ground (arith, digit_step n c h.0.0 h.0.1, scan-decimal (n * 10 + (c - 48)) s rest h.1)

scan-stop :
    (s rest : Chars) (m : ℕ)
    → AllDigits s
    → (m < 48) ⊎ (57 < m)
    → scan_size 0 (s ++ m ∷ rest) ≡ (decimal 0 s % u64_mod, some m)
unfolding scan_size
scan-stop s rest m h k = scan-decimal 0 s (m ∷ rest) h ∙ ground arith

scan-end :
    (n : ℕ) (s : Chars) → AllDigits s → scan_size (n % u64_mod) s ≡ (decimal n s % u64_mod, none)
unfolding scan_size
scan-end n [] h = refl
scan-end n (c ∷ s) h =
    ground (arith, digit_step n c h.0.0 h.0.1, scan-end (n * 10 + (c - 48)) s h.1)

-- The power of 1024 that a modifier stands for.
abbrev pub power_of : ℕ → Option ℕ
power_of m =
    if (m == 75) || (m == 107)
    then some 1
    else if (m == 77) || (m == 109)
    then some 2
    else if (m == 71) || (m == 103)
    then some 3
    else if (m == 84) || (m == 116)
    then some 4
    else none

scale_size_lem :
    (n m : ℕ)
    → scale_size (n % u64_mod) m ≡ elim (power_of m) [ none ↦ 0 | some k ↦ n * 1024 ^ k % u64_mod ]
unfolding scale_size
scale_size_lem n m = ground arith

-- A row of digits is read as the number it shows, modulo 2^64.
pub size-digits : (s : Chars) → AllDigits s → string_to_size s ≡ decimal 0 s % u64_mod
unfolding string_to_size
size-digits [] h = refl
size-digits (c ∷ s) h =
    ground (arith, ap (λ p. p.0) (scan-end 0 (c ∷ s) h), ap (λ p. p.1) (scan-end 0 (c ∷ s) h))

-- Digits, at least one, and a modifier, K, M, G or T in either case, are read as the number times
-- 1024, 1024^2, 1024^3 or 1024^4, modulo 2^64, whatever follows; with any other character behind
-- the digits they are read as zero.
pub size-modifier :
    (c m : ℕ) (s rest : Chars)
    → AllDigits (c ∷ s)
    → (m < 48) ⊎ (57 < m)
    → string_to_size ((c ∷ s) ++ m ∷ rest)
      ≡ elim (power_of m) [ none ↦ 0 | some k ↦ decimal 0 (c ∷ s) * 1024 ^ k % u64_mod ]
unfolding string_to_size
size-modifier c m s rest h k =
    let e = scan-stop (c ∷ s) rest m h k in
    let scanned : string_to_size ((c ∷ s) ++ m ∷ rest)
        ≡ scale_size (decimal 0 (c ∷ s) % u64_mod) m =
      ground (arith, ap (λ p. p.0) e, ap (λ p. p.1) e) in
    scanned ∙ scale_size_lem (decimal 0 (c ∷ s)) m
