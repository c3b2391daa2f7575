-- ===== src/Db/Tests.antt =====
-- The database layer with a driver that accepts every query.
use my_sqltutorials.Prelude.{◌≡◌, refl, arith, true, false, List, [], ◌∷◌, Chars}
use my_sqltutorials.Prelude.Int.{pos}
use my_sqltutorials.Db.{
  DbError, QueryType, Driver, Conn, get_query_type, no_stats, skip_spaces, has_prefix, word_commit,
  ThreadStat,
}
use my_sqltutorials.Db.Statements.{Stmt}
use my_sqltutorials.Db.Results.{empty_results, db_free_results}
use my_sqltutorials.Db.Results.Scan.{fetch_all, scan-frees}
use my_sqltutorials.Db.Reports.{Last}
use my_sqltutorials.Db.Bulk.{result, bulk_insert_init, bulk_insert_done, insert_all}
use my_sqltutorials.Db.Bulk.Batches.{Item, render_all, rows_of, AllFit}
use my_sqltutorials.Db.Bulk.Rows.{bulk_insert_sends_rows}

abbrev willing : Driver
willing = record {
  query = λ sent query. DbError.none;
  describe_fails = false;
  multi_rows_insert = true;
  needs_commit = true;
}

abbrev connected : Conn
connected = record {
  has_driver = true;
  db_errno = DbError.none;
  bulk_supported = false;
  bulk_cnt = 0;
  bulk_buffer = [];
  bulk_buflen = 0;
  bulk_ptr = 0;
  bulk_ptr_orig = 0;
  bulk_commit_cnt = 0;
  bulk_commit_max = 0;
  thread_id = pos 1;
  thread_stats = no_stats ∷ no_stats ∷ [];
  sent = [];
}

-- " COMMIT" is a commit.
commit_type : get_query_type (32 ∷ 67 ∷ 79 ∷ 77 ∷ 77 ∷ 73 ∷ 84 ∷ []) ≡ QueryType.commit
unfolding get_query_type skip_spaces has_prefix
commit_type = refl

abbrev rows : List Chars
rows = (40 ∷ 49 ∷ 41 ∷ []) ∷ (40 ∷ 50 ∷ 41 ∷ []) ∷ []

bulk_insert_example :
    (t : Conn) × (insert_all willing rows (bulk_insert_init willing (73 ∷ 32 ∷ []) connected).1
      ≡ result false t)
    × ((items : List Item) × ((bulk_insert_done willing t).sent ≡ render_all (73 ∷ 32 ∷ []) items)
        × (rows_of items ≡ rows)
        × AllFit (73 ∷ 32 ∷ []) items)
bulk_insert_example =
    bulk_insert_sends_rows willing (73 ∷ 32 ∷ []) rows connected (λ sent query. refl) refl refl
      (omega arith) (omega arith, (omega arith, tt))

abbrev commit_stmt : Stmt
commit_stmt = record { query = word_commit; type = QueryType.commit }

-- The third row is that of the attempt behind the last.
scan-frees_example :
    (db_free_results true false (fetch_all 2 empty_results)).1.freed ≡ 2 ∷ 2 ∷ 1 ∷ 0 ∷ []
scan-frees_example = scan-frees 2

abbrev one_reconnect : List ThreadStat
one_reconnect = record no_stats { transactions = 3; reconnects = 1 } ∷ []

abbrev last_one : Last
last_one = record {
  last_transactions = 2;
  last_read_ops = 0;
  last_write_ops = 0;
  last_errors = 0;
  last_reconnects = 1;
}
