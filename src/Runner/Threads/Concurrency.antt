-- ===== src/Runner/Threads/Concurrency.antt =====
-- What a thread does to the number of concurrent requests.
use my_sqltutorials.Prelude.{
  ℕ, ◌≡◌, inl, inr, refl, ap, sym, ◌∙◌, arith, Bool, true, false, none, some, List, [], ◌∷◌,
  Option-cases,
}
use my_sqltutorials.Prelude.Int.{ℤ, pos, ◌+ℤ◌, ◌-ℤ◌, eq_of_parts, +ℤ_parts, -ℤ_parts}
use my_sqltutorials.Runner.Threads.{Round, Leaves, Effects, round, rounds, failure, unfinished}

plus_minus : (a : ℤ) → (a +ℤ pos 1) -ℤ pos 1 ≡ a
plus_minus a = omega (
  arith,
  eq_of_parts ((a +ℤ pos 1) -ℤ pos 1) a,
  +ℤ_parts a (pos 1),
  -ℤ_parts (a +ℤ pos 1) (pos 1),
)

-- The concurrency that a thread leaves behind when it leaves its loop.
abbrev pub left_over : Bool → Leaves → ℤ → ℤ
left_over true failure c = c +ℤ pos 1
left_over _ _ c = c

round-some :
    (has_rate : Bool) (max_time : ℕ) (r : Round) (s t : Effects) (l : Leaves)
    → round has_rate max_time r s ≡ (some l, t)
    → t.concurrency ≡ left_over has_rate l s.concurrency
unfolding round
round-some has_rate max_time r s t l e = ground (arith, plus_minus s.concurrency)

round-none :
    (has_rate : Bool) (max_time : ℕ) (r : Round) (s t : Effects)
    → round has_rate max_time r s ≡ (none, t)
    → t.concurrency ≡ s.concurrency
unfolding round
round-none has_rate max_time r s t e = ground (arith, plus_minus s.concurrency)

left_over-unfinished : (b : Bool) (c : ℤ) → left_over b unfinished c ≡ c
left_over-unfinished true c = refl
left_over-unfinished false c = refl

-- When a thread has left its loop, it has taken back every increment of the number of concurrent
-- requests; except that, in the mode with a rate, a request that fails leaves it one too high.
pub rounds-concurrency :
    (has_rate : Bool) (max_time : ℕ) (rs : List Round) (s : Effects)
    → (rounds has_rate max_time rs s).1.concurrency
      ≡ left_over has_rate (rounds has_rate max_time rs s).0 s.concurrency
unfolding rounds
rounds-concurrency has_rate max_time [] s = sym (left_over-unfinished has_rate s.concurrency)
rounds-concurrency has_rate max_time (r ∷ rs) s =
    let t : Effects = (round has_rate max_time r s).1 in
    elim (Option-cases (round has_rate max_time r s).0) [
      | inl p ↦
          rw (p, rounds)
            (rounds-concurrency has_rate max_time rs t
              ∙ ap (left_over has_rate (rounds has_rate max_time rs t).0)
                  (round-none has_rate max_time r s t (ap (λ l. (l, t)) p)))
      | inr (l, p) ↦ rw (p, rounds) (round-some has_rate max_time r s t l (ap (λ x. (x, t)) p))
    ]
