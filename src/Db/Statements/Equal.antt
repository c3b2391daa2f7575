-- ===== src/Db/Statements/Equal.antt =====
-- Prepared statements count as queries do, and which driver is chosen.
use my_sqltutorials.Prelude.{◌≡◌, refl, arith, Bool, false, List, [], ◌∷◌, ◌||◌, Chars}
use mathlib.Core.Option.{some}
use my_sqltutorials.Logger.Text.{same_text}
use my_sqltutorials.Db.{DbError, Conn, Driver, db_query}
use my_sqltutorials.Db.Statements.{Stmt, db_prepare, db_execute, find_driver}

-- Where the driver prepares a query, and answers to the execution of the statement as it would to
-- the query, executing the statement has the result of db_query, and leaves the same error and the
-- same counters of the threads.
pub execute-query :
    (d : Driver) (execute : List Chars → Stmt → DbError) (query : Chars) (stmt : Stmt) (s : Conn)
    → db_prepare false query ≡ some stmt
    → ((sent : List Chars) → execute sent stmt ≡ d.query sent query)
    → db_execute execute stmt s ≡ db_query d query s
unfolding db_prepare db_execute db_query
execute-query d execute query stmt s p h = ground (arith, h s.sent)

-- Whether a driver has the name.
abbrev pub has_name : Chars → List Chars → Bool
has_name name [] = false
has_name name (d ∷ ds) = same_text d name || has_name name ds

abbrev pub last_or : Chars → List Chars → Chars
last_or d [] = d
last_or d (e ∷ ds) = last_or e ds

-- A name that no driver has chooses the last driver.
pub find_driver-last :
    (name d : Chars) (ds : List Chars)
    → has_name name (d ∷ ds) ≡ false
    → find_driver name (d ∷ ds) ≡ some (last_or d ds)
unfolding find_driver
find_driver-last name d [] h = refl
find_driver-last name d (e ∷ ds) h = ground (arith, find_driver-last name e ds)
