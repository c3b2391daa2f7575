-- ===== src/Rand/Strings.antt =====
-- sb_rand_str: a format in which # stands for a digit and @ for a small letter.
use my_sqltutorials.Prelude.{
  ℕ, ◌+◌, ◌≤◌, ◌≡◌, refl, ap, sym, ◌∙◌, arith, Option, some, [], ◌∷◌, ◌>>=◌, ◌==◌, if◌then◌else◌,
  Chars, Bool-cases, inl, inr, ◌⊎◌, ◌≢◌,
}
use my_sqltutorials.Prelude.Int.{pos, ◌+ℤ◌, pos_part}
use my_sqltutorials.Rand.{rand_uniform}
use my_sqltutorials.Rand.Range.{rand_uniform-IsBetween}

-- '#'
abbrev hash : ℕ
hash = 35

-- '@'
abbrev at_sign : ℕ
at_sign = 64

-- A random character from a to b.
unfoldable pub draw_between : (rnd : ℕ → ℕ) (a b : ℕ) → Option (ℕ × ℕ)
unfolding rand_uniform
draw_between rnd a b = do r ← rand_uniform rnd (pos a) (pos b); some (pos_part r, 1)

-- One character, and the number of random numbers that it takes; `none` is a division by zero.
unfoldable pub draw : (rnd : ℕ → ℕ) → ℕ → Option (ℕ × ℕ)
unfolding draw_between
draw rnd c =
    if c == hash
    then draw_between rnd 48 57
    else if c == at_sign
    then draw_between rnd 97 122
    else some (c, 0)

unfoldable pub rand_str : (rnd : ℕ → ℕ) (fmt : Chars) → Option Chars
unfolding draw
rand_str rnd [] = some []
rand_str rnd (c ∷ fmt) = do
  (d, taken) ← draw rnd c
  rest ← rand_str (λ i. rnd (taken + i)) fmt
  some (d ∷ rest)

-- A character that can stand for one of the format.
abbrev pub Fits : (format_char char : ℕ) → Type 0
Fits c d =
    ((c ≡ hash) × (48 ≤ d) × (d ≤ 57))
    ⊎ ((c ≡ at_sign) × (97 ≤ d) × (d ≤ 122))
    ⊎ ((c ≢ hash) × (c ≢ at_sign) × (d ≡ c))

abbrev pub AllFit : (fmt text : Chars) → Type 0
AllFit [] [] = Unit {0}
AllFit [] (d ∷ text) = ⊥
AllFit (c ∷ fmt) [] = ⊥
AllFit (c ∷ fmt) (d ∷ text) = Fits c d × AllFit fmt text

plus_pos : (a k : ℕ) → pos a +ℤ pos k ≡ pos (a + k)
unfolding ◌+ℤ◌
plus_pos a k = ground arith

uniform_char :
    (rnd : ℕ → ℕ) (a k b : ℕ)
    → a + k ≡ b
    → (d : ℕ) × (draw_between rnd a b ≡ some (d, 1)) × (a ≤ d) × (d ≤ b)
unfolding draw_between
uniform_char rnd a k b h =
    let (r, e, (i, l, er)) = rand_uniform-IsBetween rnd (pos a) k in
    let range : pos a +ℤ pos k ≡ pos b = plus_pos a k ∙ ap pos h in
    let drawn : rand_uniform rnd (pos a) (pos b) ≡ some (pos (a + i)) =
      ap (rand_uniform rnd (pos a)) (sym range) ∙ e ∙ ap (λ z. some z) (er ∙ plus_pos a i) in
    (a + i, rw drawn refl, omega arith, omega arith)

draw-Fits :
    (rnd : ℕ → ℕ) (c : ℕ) → (d : ℕ) × (taken : ℕ) × (draw rnd c ≡ some (d, taken)) × Fits c d
unfolding draw
draw-Fits rnd c = elim (Bool-cases (c == hash)) [
  | inl e ↦
      let (d, p, l, h) = uniform_char rnd 48 9 57 refl in
      (d, 1, rw e p, inl (ground (arith, e), l, h))
  | inr e ↦ elim (Bool-cases (c == at_sign)) [
    | inl f ↦
        let (d, p, l, h) = uniform_char rnd 97 25 122 refl in
        (d, 1, rw e (rw f p), inr (inl (ground (arith, f), l, h)))
    | inr f ↦ (
      c,
      0,
      rw e (rw f refl),
      inr (inr ((λ z. ground (arith, e, z)), (λ z. ground (arith, f, z)), refl)),
    )
  ]
]

-- Every format gives a text of its length, in which a # has become a digit, an @ a small letter, and
-- every other character is the same.
pub rand_str-AllFit :
    (rnd : ℕ → ℕ) (fmt : Chars) → (text : Chars) × (rand_str rnd fmt ≡ some text) × AllFit fmt text
unfolding rand_str
rand_str-AllFit rnd [] = ([], refl, tt)
rand_str-AllFit rnd (c ∷ fmt) =
    let (d, taken, e, f) = draw-Fits rnd c in
    let (text, et, ft) = rand_str-AllFit (λ i. rnd (taken + i)) fmt in
    (d ∷ text, rw e (rw et refl), (f, ft))
