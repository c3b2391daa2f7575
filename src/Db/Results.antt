-- ===== src/Db/Results.antt =====
-- The rows of a result set (db_fetch_row, db_free_results). Rows are numbered in the order in which
-- they are allocated.
pub mod Scan
use my_sqltutorials.Prelude.{
  ℕ, zero, suc, ◌+◌, ◌-◌, ◌*◌, ◌/◌, ◌%◌, ◌^◌, ◌≤◌, ◌<◌, ◌≡◌, ◌≢◌, ◌↔◌, ◌⊎◌, inl, inr, refl, ap, sym,
  ◌∙◌, arith, Bool, true, false, not, Option, none, some, List, [], ◌∷◌, ◌++◌, map, ltb, leb, ◌==◌,
  ◌&&◌, ◌||◌, if◌then◌else◌, Bool-cases, length, get_elem?, set, take, drop, replicate,
  length-append, get_elem?-set_ne, get_elem?-set_self, foldr, Chars,
}

-- The field `row` of db_result_set_t, and the rows allocated and freed so far, the latest first.
pub record ResultSet : Type 0 where
  pub allocated : ℕ
  pub row : Option ℕ
  pub freed : List ℕ

-- What db_fetch_row meets: a result set of a statement, a connection with a driver, memory, and the
-- result of the driver.
pub record Fetch : Type 0 where
  pub of_statement : Bool
  pub has_driver : Bool
  pub memory_ok : Bool
  pub fetch_fails : Bool

abbrev pub empty_results : ResultSet
empty_results = record { allocated = 0; row = none; freed = [] }

abbrev pub free_row : Option ℕ → ResultSet → ResultSet
free_row none s = s
free_row (some i) s = record s { freed = i ∷ s.freed }

-- The row that is allocated for the next fetch, in place of the one before.
abbrev new_row : ResultSet → ResultSet
new_row s = record (free_row s.row s) { row = some s.allocated; allocated = s.allocated + 1 }

-- The flag tells whether there is a row.
unfoldable pub db_fetch_row : Fetch → ResultSet → Bool × ResultSet
db_fetch_row f s =
    if f.of_statement || not f.has_driver
    then (false, s)
    else if not f.memory_ok
    then (false, record (free_row s.row s) { row = none })
    else if f.fetch_fails
    then (false, free_row (some s.allocated) (new_row s))
    else (true, new_row s)

-- The flag is an error.
unfoldable pub db_free_results : (has_driver free_fails : Bool) → ResultSet → Bool × ResultSet
db_free_results has_driver free_fails s =
    if has_driver then (free_fails, free_row s.row s) else (true, s)
