-- ===== src/Db/Stats.antt =====
-- The totals of the threads' counters.
use my_sqltutorials.Prelude.{
  ℕ, zero, suc, ◌<◌, ◌≡◌, refl, ap, ◌∙◌, arith, true, false, List, [], ◌∷◌, ◌++◌, if◌then◌else◌,
  length, Chars,
}
use my_sqltutorials.Prelude.Int.{pos}
use my_sqltutorials.Db.{
  DbError, QueryType, ThreadStat, Driver, Conn, count_query, update_at, update_thread_stats, bump,
  add_error, add_reconnect, settle, db_query, get_query_type, plus, sum_stats, reset_stats,
  no_stats,
}

-- A change that commutes with adding.
record IsCount (f : ThreadStat → ThreadStat) : Type 0 where
  on_left : (t u : ThreadStat) → plus (f t) u ≡ f (plus t u)
  on_right : (t u : ThreadStat) → plus t (f u) ≡ f (plus t u)

count_query-IsCount : (type : QueryType) → IsCount (count_query type)
unfolding plus count_query
count_query-IsCount QueryType.read = record {
  on_left = λ t u. ground arith;
  on_right = λ t u. ground arith;
}
count_query-IsCount QueryType.write = record {
  on_left = λ t u. ground arith;
  on_right = λ t u. ground arith;
}
count_query-IsCount QueryType.commit = record {
  on_left = λ t u. ground arith;
  on_right = λ t u. ground arith;
}
count_query-IsCount QueryType.other = record {
  on_left = λ t u. ground arith;
  on_right = λ t u. ground arith;
}

add_error-IsCount : IsCount add_error
unfolding plus
add_error-IsCount = record { on_left = λ t u. ground arith; on_right = λ t u. ground arith }

add_reconnect-IsCount : IsCount add_reconnect
unfolding plus
add_reconnect-IsCount = record { on_left = λ t u. ground arith; on_right = λ t u. ground arith }

sum-update_at :
    (f : ThreadStat → ThreadStat) (id : ℕ) (ts : List ThreadStat)
    → IsCount f
    → id < length ts
    → sum_stats (update_at f id ts) ≡ f (sum_stats ts)
unfolding sum_stats
sum-update_at f id [] h l = absurd (omega arith)
sum-update_at f zero (t ∷ ts) h l = h.on_left t (sum_stats ts)
sum-update_at f (suc id) (t ∷ ts) h l =
    ap (plus t) (sum-update_at f id ts h (omega arith)) ∙ h.on_right t (sum_stats ts)

-- The counter that a result of the driver changes.
abbrev pub counted : DbError → QueryType → ThreadStat → ThreadStat
counted DbError.none type t = count_query type t
counted DbError.reconnected type t = add_reconnect t
counted DbError.restart_transaction type t = add_error t
counted DbError.failed type t = t

sum-settle :
    (e : DbError) (type : QueryType) (s : Conn) (id : ℕ)
    → s.thread_id ≡ pos id
    → id < length s.thread_stats
    → sum_stats (settle e type s).1.thread_stats ≡ counted e type (sum_stats s.thread_stats)
unfolding settle update_thread_stats bump
sum-settle DbError.none type s id h l =
    ap (λ i. sum_stats (update_thread_stats i type s.thread_stats)) h
    ∙ sum-update_at (count_query type) id s.thread_stats (count_query-IsCount type) l
sum-settle DbError.reconnected type s id h l =
    ap (λ i. sum_stats (bump add_reconnect i s.thread_stats)) h
    ∙ sum-update_at add_reconnect id s.thread_stats add_reconnect-IsCount l
sum-settle DbError.restart_transaction type s id h l =
    ap (λ i. sum_stats (bump add_error i s.thread_stats)) h
    ∙ sum-update_at add_error id s.thread_stats add_error-IsCount l
sum-settle DbError.failed type s id h l = refl

-- A query of a thread of the run, on a connection with a driver, changes the totals over all
-- threads by the one counter that belongs to its result: the kind of the query if it succeeds (a
-- COMMIT counts as a transaction and as another operation), a reconnect, an ignored error, or
-- none.
pub sum-db_query :
    (d : Driver) (query : Chars) (s : Conn) (id : ℕ)
    → s.has_driver ≡ true
    → s.thread_id ≡ pos id
    → id < length s.thread_stats
    → sum_stats (db_query d query s).1.thread_stats
      ≡ counted (d.query s.sent query) (get_query_type query) (sum_stats s.thread_stats)
unfolding db_query
sum-db_query d query s id p h l =
    let t = record s { sent = s.sent ++ query ∷ [] } in
    let e = d.query s.sent query in
    let type = get_query_type query in
    ap (λ b. sum_stats (if b then settle e type t else (false, s)).1.thread_stats) p
    ∙ sum-settle e type t id h l

-- After a reset all totals are zero.
sum-reset : (ts : List ThreadStat) → sum_stats (reset_stats ts) ≡ no_stats
unfolding sum_stats reset_stats plus
sum-reset [] = refl
sum-reset (t ∷ ts) = ap (plus no_stats) (sum-reset ts) ∙ refl
