-- ===== src/Links/Tests.antt =====
-- A list with some items.
use my_sqltutorials.Prelude.{◌≡◌, refl, arith, List, [], ◌∷◌}
use my_sqltutorials.Links.{Links, list_init, for_each}
use my_sqltutorials.Links.Operations.{
  ListOp, adds, adds_tail, deletes, replaces, run_ops, for_each-run_ops,
}

abbrev unlinked : Links
unlinked = record { next_p = λ x. 0; prev_p = λ x. 0 }

abbrev some_ops : List ListOp
some_ops = adds_tail 1 ∷ adds_tail 2 ∷ adds 3 ∷ deletes 1 ∷ replaces 4 2 ∷ []

for_each-run_ops_example :
    for_each 3 9
      ((run_ops 9 some_ops (list_init 9 unlinked)).next_p 9)
      (run_ops 9 some_ops (list_init 9 unlinked))
    ≡ 3 ∷ 4 ∷ []
for_each-run_ops_example = for_each-run_ops 9 some_ops unlinked (
  ((λ e. absurd (omega arith)), tt),
  (
    ((λ e. absurd (omega arith)), ((λ e. absurd (omega arith)), tt)),
    (
      (
        (λ e. absurd (omega arith)),
        ((λ e. absurd (omega arith)), ((λ e. absurd (omega arith)), tt)),
      ),
      (
        refl,
        (
          (
            (
              (λ e. absurd (omega arith)),
              ((λ e. absurd (omega arith)), ((λ e. absurd (omega arith)), tt)),
            ),
            refl,
          ),
          tt,
        ),
      ),
    ),
  ),
)
