-- ===== src/Db/Statements.antt =====
-- Prepared statements and the choice of a driver (db_init, db_prepare, db_execute). The state of a
-- connection is that of Db; a driver's answer to the execution of a statement is an argument.
pub mod Equal
use my_sqltutorials.Prelude.{
  ℕ, zero, suc, ◌+◌, ◌-◌, ◌*◌, ◌/◌, ◌%◌, ◌^◌, ◌≤◌, ◌<◌, ◌≡◌, ◌≢◌, ◌↔◌, ◌⊎◌, inl, inr, refl, ap, sym,
  ◌∙◌, arith, Bool, true, false, not, Option, List, [], ◌∷◌, ◌++◌, map, ltb, leb, ◌==◌, ◌&&◌, ◌||◌,
  if◌then◌else◌, Bool-cases, length, get_elem?, set, take, drop, replicate, length-append,
  get_elem?-set_ne, get_elem?-set_self, foldr, Chars,
}
use mathlib.Core.Option.{some}
use my_sqltutorials.Logger.Text.{same_text}
use my_sqltutorials.Db.{DbError, QueryType, Conn, get_query_type, settle}
use mathlib.Core.Option

-- db_stmt_t; the query is kept for the driver.
pub record Stmt : Type 0 where
  pub query : Chars
  pub type : QueryType

-- `prepare_fails` is the result of the driver's function.
unfoldable pub db_prepare : (prepare_fails : Bool) → Chars → Option Stmt
db_prepare prepare_fails query =
    if prepare_fails
    then Option.none
    else some (record { query = query; type = get_query_type query })

-- `execute` is the answer of the driver, given the queries sent before.
unfoldable pub db_execute : (execute : List Chars → Stmt → DbError) → Stmt → Conn → Bool × Conn
db_execute execute stmt s =
    if s.has_driver
    then settle (execute s.sent stmt) stmt.type (record s { sent = s.sent ++ stmt.query ∷ [] })
    else (false, s)

-- The loop of db_init over the drivers, by their names: it ends at the driver with the name, or at
-- the last.
unfoldable pub find_driver : (name : Chars) (drivers : List Chars) → Option Chars
find_driver name [] = Option.none
find_driver name (d ∷ []) = some d
find_driver name (d ∷ e ∷ ds) =
    let rest = find_driver name (e ∷ ds) in if same_text d name then some d else rest

-- The driver that db_init chooses for its argument and the option; `none` is a failure.
unfoldable pub choose_driver : (name option : Option Chars) → List Chars → Option Chars
choose_driver name option [] = Option.none
choose_driver (some name) option (d ∷ ds) = find_driver name (d ∷ ds)
choose_driver Option.none (some name) (d ∷ ds) = find_driver name (d ∷ ds)
choose_driver Option.none Option.none (d ∷ []) = some d
choose_driver Option.none Option.none (d ∷ e ∷ ds) = Option.none
