-- ===== src/Db/Results/Scan.antt =====
-- The usual loop over a result: rows are fetched until there is none, and the result is freed.
use my_sqltutorials.Prelude.{
  ℕ, zero, suc, ◌+◌, ◌≡◌, refl, ap, ◌∙◌, arith, Bool, true, false, some, List, [], ◌∷◌,
}
use my_sqltutorials.Db.Results.{
  ResultSet, Fetch, empty_results, free_row, db_fetch_row, db_free_results,
}

abbrev pub next_row : Bool → Fetch
next_row fetch_fails = record {
  of_statement = false;
  has_driver = true;
  memory_ok = true;
  fetch_fails = fetch_fails;
}

-- The rows that the driver has, and the attempt behind them.
unfoldable pub fetch_all : (n : ℕ) → ResultSet → ResultSet
fetch_all zero s = (db_fetch_row (next_row true) s).1
fetch_all (suc n) s = fetch_all n (db_fetch_row (next_row false) s).1

-- The numbers of the first `n` rows, the latest first.
abbrev pub below : ℕ → List ℕ
below zero = []
below (suc n) = n ∷ below n

-- The result set when `i` is the row fetched last, and all before it have been freed.
abbrev at_row : ℕ → ResultSet
at_row i = record { allocated = i + 1; row = some i; freed = below i }

-- The result set when the attempt behind the row `m` - 1 has failed.
abbrev ended : ℕ → ResultSet
ended m = record { allocated = m + 1; row = some m; freed = m ∷ below m }

one_more : (i : ℕ) → i ∷ below i ≡ below (i + 1)
one_more i = ap below (same i)
  where
    same : (i : ℕ) → suc i ≡ i + 1
    same i = omega arith

fetch_all-at : (n i : ℕ) → fetch_all n (at_row i) ≡ ended (n + (i + 1))
unfolding fetch_all db_fetch_row
fetch_all-at zero i =
    let sum : i + 1 ≡ 0 + (i + 1) = omega arith in
    ap (λ l. record { allocated = i + 1 + 1; row = some (i + 1); freed = (i + 1) ∷ l }) (one_more i)
    ∙ ap ended sum
fetch_all-at (suc n) i =
    let sum : n + (i + 1 + 1) ≡ suc n + (i + 1) = omega arith in
    ap (λ l. fetch_all n (record { allocated = i + 1 + 1; row = some (i + 1); freed = l }))
      (one_more i)
    ∙ fetch_all-at n (i + 1)
    ∙ ap ended sum

-- The state behind the loop over `n` rows.
fetch_all-ended : (n : ℕ) → fetch_all n empty_results ≡ ended n
unfolding fetch_all db_fetch_row
fetch_all-ended zero = refl
fetch_all-ended (suc n) =
    let sum : n + (0 + 1) ≡ suc n = omega arith in fetch_all-at n 0 ∙ ap ended sum

-- When a result of any number of rows has been fetched to its end and is freed, every row has been
-- freed once, except the one for the attempt behind the last, which is freed twice.
pub scan-frees :
    (n : ℕ) → (db_free_results true false (fetch_all n empty_results)).1.freed ≡ n ∷ n ∷ below n
unfolding db_free_results
scan-frees n = ap (λ s. (free_row s.row s).freed) (fetch_all-ended n)
