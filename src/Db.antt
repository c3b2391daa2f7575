-- ===== src/Db.antt =====
-- sysbench-0.5/sysbench/db_driver.c and db_driver.h: the database layer. A driver is a parameter.
-- Allocation succeeds, and result sets are not modelled.
pub mod Stats
pub mod Bulk
pub mod Statements
pub mod Results
pub mod Reports
mod Tests
use my_sqltutorials.Prelude.{
  ℕ, zero, suc, ◌+◌, ◌-◌, ◌*◌, ◌/◌, ◌%◌, ◌^◌, ◌≤◌, ◌<◌, ◌≡◌, ◌≢◌, ◌↔◌, ◌⊎◌, inl, inr, refl, ap, sym,
  ◌∙◌, arith, Bool, true, false, not, List, [], ◌∷◌, ◌++◌, map, ltb, leb, ◌==◌, ◌&&◌, ◌||◌,
  if◌then◌else◌, Bool-cases, length, get_elem?, set, take, drop, replicate, length-append,
  get_elem?-set_ne, get_elem?-set_self, foldr, Chars,
}
use my_sqltutorials.Prelude.Int.{ℤ, pos, negsuc}
use my_sqltutorials.Prelude.Words.{add64}

-- db_error_t
pub data DbError : Type 0 where
  none restart_transaction reconnected failed : DbError

-- db_query_type_t
pub data QueryType : Type 0 where
  read write commit other : QueryType

-- db_thread_stat_t
pub record ThreadStat : Type 0 where
  pub read_ops : ℕ
  pub write_ops : ℕ
  pub other_ops : ℕ
  pub transactions : ℕ
  pub errors : ℕ
  pub reconnects : ℕ

-- What a driver answers to a query, given those sent before, and its capabilities.
pub record Driver : Type 0 where
  pub query : List Chars → Chars → DbError
  pub describe_fails : Bool
  pub multi_rows_insert : Bool
  pub needs_commit : Bool

-- db_conn_t, the counters of the threads and the queries sent, in order. `bulk_buffer` is the string
-- up to its end.
pub record Conn : Type 0 where
  pub has_driver : Bool
  pub db_errno : DbError
  pub bulk_supported : Bool
  pub bulk_cnt : ℕ
  pub bulk_buffer : Chars
  pub bulk_buflen : ℕ
  pub bulk_ptr : ℕ
  pub bulk_ptr_orig : ℕ
  pub bulk_commit_cnt : ℕ
  pub bulk_commit_max : ℕ
  pub thread_id : ℤ
  pub thread_stats : List ThreadStat
  pub sent : List Chars

abbrev isspace : ℕ → Bool
isspace c = (c == 32) || (leb 9 c && leb c 13)

unfoldable pub skip_spaces : Chars → Chars
skip_spaces [] = []
skip_spaces (c ∷ s) = if isspace c then skip_spaces s else c ∷ s

abbrev tolower : ℕ → ℕ
tolower c = if leb 65 c && leb c 90 then c + 32 else c

-- strncasecmp against a word in lower case, for its length.
unfoldable pub has_prefix : (word s : Chars) → Bool
has_prefix [] s = true
has_prefix (w ∷ word) [] = false
has_prefix (w ∷ word) (c ∷ s) = (tolower c == w) && has_prefix word s

abbrev pub word_select : Chars
word_select = 115 ∷ 101 ∷ 108 ∷ 101 ∷ 99 ∷ 116 ∷ []

abbrev pub word_insert : Chars
word_insert = 105 ∷ 110 ∷ 115 ∷ 101 ∷ 114 ∷ 116 ∷ []

abbrev pub word_update : Chars
word_update = 117 ∷ 112 ∷ 100 ∷ 97 ∷ 116 ∷ 101 ∷ []

abbrev pub word_delete : Chars
word_delete = 100 ∷ 101 ∷ 108 ∷ 101 ∷ 116 ∷ 101 ∷ []

abbrev pub word_commit : Chars
word_commit = 99 ∷ 111 ∷ 109 ∷ 109 ∷ 105 ∷ 116 ∷ []

abbrev pub words_unlock : Chars
words_unlock = 117 ∷ 110 ∷ 108 ∷ 111 ∷ 99 ∷ 107 ∷ 32 ∷ 116 ∷ 97 ∷ 98 ∷ 108 ∷ 101 ∷ 115 ∷ []

unfoldable pub get_query_type : Chars → QueryType
get_query_type query =
    let s = skip_spaces query in
    if has_prefix word_select s
    then QueryType.read
    else if has_prefix word_insert s || has_prefix word_update s || has_prefix word_delete s
    then QueryType.write
    else if has_prefix word_commit s || has_prefix words_unlock s
    then QueryType.commit
    else QueryType.other

unfoldable pub count_query : QueryType → ThreadStat → ThreadStat
count_query QueryType.read t = record t { read_ops = add64 t.read_ops 1 }
count_query QueryType.write t = record t { write_ops = add64 t.write_ops 1 }
count_query QueryType.commit t = record t {
  other_ops = add64 t.other_ops 1;
  transactions = add64 t.transactions 1;
}
count_query QueryType.other t = record t { other_ops = add64 t.other_ops 1 }

abbrev pub update_at : (ThreadStat → ThreadStat) → ℕ → List ThreadStat → List ThreadStat
update_at f i [] = []
update_at f zero (t ∷ ts) = f t ∷ ts
update_at f (suc i) (t ∷ ts) = t ∷ update_at f i ts

-- A negative id counts nowhere.
unfoldable pub update_thread_stats : ℤ → QueryType → List ThreadStat → List ThreadStat
update_thread_stats (negsuc n) type ts = ts
update_thread_stats (pos id) type ts = update_at (count_query type) id ts

-- `thread_stats[id].errors++` and the like, within the array.
unfoldable pub bump : (ThreadStat → ThreadStat) → ℤ → List ThreadStat → List ThreadStat
bump f (negsuc n) ts = ts
bump f (pos id) ts = update_at f id ts

abbrev pub add_error : ThreadStat → ThreadStat
add_error t = record t { errors = add64 t.errors 1 }

abbrev pub add_reconnect : ThreadStat → ThreadStat
add_reconnect t = record t { reconnects = add64 t.reconnects 1 }

-- What db_query and db_execute do with the result of the driver, for a query of a type.
unfoldable pub settle : DbError → QueryType → Conn → Bool × Conn
settle DbError.none type s = (
  true,
  record s {
    db_errno = DbError.none;
    thread_stats = update_thread_stats s.thread_id type s.thread_stats;
  },
)
settle DbError.reconnected type s = (
  false,
  record s {
    db_errno = DbError.restart_transaction;
    thread_stats = bump add_reconnect s.thread_id s.thread_stats;
  },
)
settle DbError.restart_transaction type s = (
  false,
  record s {
    db_errno = DbError.restart_transaction;
    thread_stats = bump add_error s.thread_id s.thread_stats;
  },
)
settle DbError.failed type s = (false, record s { db_errno = DbError.failed })

-- The flag tells whether there is a result set.
unfoldable pub db_query : Driver → Chars → Conn → Bool × Conn
db_query d query s =
    if s.has_driver
    then settle (d.query s.sent query) (get_query_type query)
        (record s { sent = s.sent ++ query ∷ [] })
    else (false, s)

abbrev pub no_stats : ThreadStat
no_stats = record {
  read_ops = 0;
  write_ops = 0;
  other_ops = 0;
  transactions = 0;
  errors = 0;
  reconnects = 0;
}

-- db_reset_stats, the counters of the threads.
unfoldable pub reset_stats : List ThreadStat → List ThreadStat
reset_stats [] = []
reset_stats (t ∷ ts) = no_stats ∷ reset_stats ts

unfoldable pub plus : ThreadStat → ThreadStat → ThreadStat
plus t u = record {
  read_ops = add64 t.read_ops u.read_ops;
  write_ops = add64 t.write_ops u.write_ops;
  other_ops = add64 t.other_ops u.other_ops;
  transactions = add64 t.transactions u.transactions;
  errors = add64 t.errors u.errors;
  reconnects = add64 t.reconnects u.reconnects;
}

-- The sums of db_print_stats.
unfoldable pub sum_stats : List ThreadStat → ThreadStat
sum_stats [] = no_stats
sum_stats (t ∷ ts) = plus t (sum_stats ts)
