-- ===== src/Rand/Tests.antt =====
-- Some draws.
use my_sqltutorials.Prelude.{ℕ, ◌+◌, ◌≡◌, refl, some, arith, List, [], ◌∷◌, length}
use my_sqltutorials.Prelude.Int.{ℤ, pos, ◌+ℤ◌, ◌-ℤ◌}
use my_sqltutorials.Rand.{rand_uniq, rand_uniform, width}
use my_sqltutorials.Rand.Unique.{uniqs, uniqs-AllDifferent, AllDifferent, AllBetween, IsCoprime}
use my_sqltutorials.Rand.Strings.{rand_str, draw, draw_between}

abbrev draws : ℕ → ℕ
draws i = 17 + i

uniq_five : rand_uniq 2147483647 (pos 1) (pos 10) ≡ some (pos 8, 4294967294)
unfolding rand_uniq width ◌+ℤ◌ ◌-ℤ◌
uniq_five = refl

-- "a#@#", where the random numbers are 17, 18 and 19.
str_four : rand_str draws (97 ∷ 35 ∷ 64 ∷ 35 ∷ []) ≡ some (97 ∷ 55 ∷ 115 ∷ 57 ∷ [])
unfolding rand_str draw draw_between rand_uniform width ◌+ℤ◌ ◌-ℤ◌
str_four = refl

ten-IsCoprime : IsCoprime 10
ten-IsCoprime d e = omega arith

uniqs_example :
    (rs : List ℤ) × (uniqs 2147483647 (pos 1) (pos 1 +ℤ pos 9) 10 ≡ some rs)
    × (length rs ≡ 10)
    × AllBetween (pos 1) 9 rs
    × AllDifferent rs
uniqs_example =
    uniqs-AllDifferent 2147483647 (pos 1) 9 10 (omega arith) ten-IsCoprime (omega arith)
      (omega arith)
