-- ===== src/Drivers/Postgres/Sends.antt =====
-- What the statements of the PostgreSQL driver send to the server.
use my_sqltutorials.Prelude.{
  ℕ, ◌+◌, ◌*◌, ◌^◌, ◌<◌, ◌≤◌, ◌≡◌, ◌≢◌, refl, ap, sym, ◌∙◌, arith, Bool, true, false, Option, some,
  none, List, [], ◌∷◌, ◌++◌, map, ◌==◌, ◌||◌, if◌then◌else◌, Chars, length, get_elem?, replicate,
}
use mathlib.Core.Option
use my_sqltutorials.Db.{DbError}
use my_sqltutorials.Drivers.Values.{Bind, value_text}
use my_sqltutorials.Drivers.Expand.{expand, Outcome, Buffer, substitute, empty_buffer}
use my_sqltutorials.Drivers.Expand.Fills.{expand_lem}
use my_sqltutorials.Drivers.Postgres.{
  Command, Answer, accepted, refused, Server, PgStmt, Stmt, Call, returns, faults, parameter_name,
  count_marks, types_of, pgsql_drv_prepare, pgsql_drv_bind_param, pgsql_drv_execute,
  pgsql_drv_query, converted, convert_values, execute_prepared, fresh, pgsql_check_status, contains,
  deadlock_message, duplicate_message, rollback_query,
}

-- A second call, where the first has returned.
abbrev pub next {ℓ κ} : {A : Type ℓ} {B : Type κ} → Call A → (Stmt → Call B) → Call B
next (returns a s) f = f s
next faults f = faults

-- A new statement of a connection.
abbrev pub connected : Stmt → Stmt
connected s = record s { con = true; emulated = false }

-- A statement is prepared, bound to values and executed.
abbrev pub session :
    Server → (use_ps : Bool) → (name query : Chars) → List Bind → Stmt → Call DbError
session server use_ps name query params s =
    next (pgsql_drv_prepare server use_ps name query s)
      (λ t. next (pgsql_drv_bind_param server params t) (pgsql_drv_execute server))

-- The result of a call, and the commands sent.
abbrev pub outcome : Call DbError → Option (DbError × List Command)
outcome (returns e s) = some (e, s.sent)
outcome faults = none

abbrev pub texts_of : List Bind → ℕ → Option Chars
texts_of params k = Option.map value_text (get_elem? params k)

-- There is memory for a text of a length.
abbrev pub Gives : (ℕ → Bool) → ℕ → Type 0
Gives realloc n = (k : ℕ) → k ≤ 2 * n + 256 → realloc k ≡ true

-- What pgsql_check_status gives for an answer, and the commands sent then.
abbrev pub checked : Answer → List Command → DbError × List Command
checked accepted sent = (DbError.none, sent)
checked (refused message) sent =
    if contains deadlock_message message || contains duplicate_message message
    then (DbError.restart_transaction, sent ++ Command.queries rollback_query ∷ [])
    else (DbError.failed, sent)

-- The result of a query and the commands sent, from those sent before.
abbrev query_result : Server → Chars → List Command → DbError × List Command
query_result server t sent =
    checked (server.answer sent (Command.queries t)) (sent ++ Command.queries t ∷ [])

query_result_lem :
    (server : Server) (t : Chars) (s : Stmt)
    → (let (e, s') = pgsql_drv_query server t s in
        ◌≡◌ {A = DbError × List Command} (e, s'.sent) (query_result server t s.sent))
unfolding pgsql_drv_query pgsql_check_status
query_result_lem server t s = ground arith

execute_emulated :
    (server : Server) (s : Stmt) (b : Buffer)
    → expand server.realloc (texts_of s.bound_param) 0 s.query_text empty_buffer ≡ Outcome.done b
    → outcome (pgsql_drv_execute server (record s { emulated = true }))
      ≡ some (query_result server b.text s.sent)
unfolding pgsql_drv_execute
execute_emulated server s b f =
    rw f (ap some (query_result_lem server b.text (record s { emulated = true })))

-- Without the prepared statements of the server: where the query is not empty and there is a value
-- for each `?`, the text with the values in the places of the `?` is shorter than 2^29 characters,
-- and every request of memory up to twice its length and 256 bytes is met, then to prepare the
-- statement, bind it and execute it sends the commands that pgsql_drv_query sends for that text, a
-- rollback behind it included, and has the same result.
pub session-query :
    (server : Server) (name query t : Chars) (params : List Bind) (s : Stmt)
    → query ≢ []
    → substitute (texts_of params) 0 query ≡ some t
    → length t < 2 ^ 29
    → Gives server.realloc (length t)
    → outcome (session server false name query params (connected s))
      ≡ (let (e, s') = pgsql_drv_query server t s in some (e, s'.sent))
unfolding pgsql_drv_prepare pgsql_drv_bind_param
session-query server name query t params s ne e l m =
    let (b, p, q, r, z) = expand_lem (texts_of params) server.realloc 0 query t ne e l m in
    let s' = record s { con = true; query_text = query; bound_param = params } in
    execute_emulated server s' b p
    ∙ ap (λ u. some (query_result server u s.sent)) q
    ∙ sym (ap some (query_result_lem server t s))

-- What the server is sent for the parameters of a statement that has just been prepared.
abbrev pub first_values : List Bind → List (Option Chars)
first_values params = map (λ v. converted v none) params

convert-first :
    (params : List Bind)
    → convert_values (length params) params (replicate (length params) none)
      ≡ some (first_values params)
unfolding convert_values
convert-first [] = refl
convert-first (v ∷ params) =
    ap (λ o. Option.map (λ rest. converted v none ∷ rest) o) (convert-first params)

pub prepared_lem :
    (server : Server) (s : Stmt) (p : PgStmt) (values : List (Option Chars))
    → outcome (execute_prepared server p values s) ≡ (
        let c = Command.executes p.name values in
        some (checked (server.answer s.sent c) (s.sent ++ c ∷ [])))
unfolding execute_prepared
prepared_lem server s p values = ground arith

module _ (server : Server) (name query : Chars) (params : List Bind) (s : Stmt) where
  prepare_marked :
      (b : Buffer)
      → expand server.realloc parameter_name 1 query empty_buffer ≡ Outcome.done b
      → count_marks query ≡ length params
      → 0 < length params
      → pgsql_drv_prepare server true name query (connected s)
        ≡ returns false (record s {
          con = true;
          emulated = false;
          query_text = b.text;
          ptr = some (record (fresh name query) { nparams = length params });
        })
  unfolding pgsql_drv_prepare
  prepare_marked b f e h = let o : (length params == 0) ≡ false = ground arith in rw (f, e, o)

  abbrev ready : PgStmt
  ready = record {
    name = name;
    prepared = true;
    nparams = length params;
    ptypes = types_of params;
    pvalues = replicate (length params) none;
  }

  -- The statement after a first call of bind_param that the server accepts.
  abbrev bound : (text : Chars) → Stmt
  bound text = record s {
    con = true;
    emulated = false;
    query_text = text;
    bound_param = params;
    ptr = some ready;
    sent = s.sent ++ Command.prepares name text (types_of params) ∷ [];
  }

  bind_first :
      (text : Chars)
      → server.answer s.sent (Command.prepares name text (types_of params)) ≡ accepted
      → pgsql_drv_bind_param server params (record s {
        con = true;
        emulated = false;
        query_text = text;
        ptr = some (record (fresh name query) { nparams = length params });
      })
        ≡ returns false (bound text)
  unfolding pgsql_drv_bind_param
  bind_first text a = ground arith

  execute_first :
      (text : Chars)
      → let sent = s.sent ++ Command.prepares name text (types_of params) ∷ [] in
        let c = Command.executes name (first_values params) in
        outcome (pgsql_drv_execute server (bound text))
        ≡ some (checked (server.answer sent c) (sent ++ c ∷ []))
  unfolding pgsql_drv_execute
  execute_first text =
      rw (convert-first params) (prepared_lem server (bound text) ready (first_values params))

marked-ne : (query : Chars) {n : ℕ} → count_marks query ≡ n → 0 < n → query ≢ []
unfolding count_marks
marked-ne [] e h = absurd (omega arith)
marked-ne (c ∷ query) e h = λ q. cc

-- With the prepared statements of the server: where the query has one parameter at least and as
-- many values are bound, the query with its parameters numbered from 1 is shorter than 2^29
-- characters, every request of memory up to twice its length and 256 bytes is met, and the server
-- accepts to prepare the statement, then two commands are sent: that query with the types of the
-- parameters, and the converted values. The result is that of the second, with a rollback behind
-- it for the errors that restart the transaction.
pub session-prepared :
    (server : Server) (name query t : Chars) (params : List Bind) (s : Stmt)
    → count_marks query ≡ length params
    → 0 < length params
    → substitute parameter_name 1 query ≡ some t
    → length t < 2 ^ 29
    → Gives server.realloc (length t)
    → server.answer s.sent (Command.prepares name t (types_of params)) ≡ accepted
    → let sent = s.sent ++ Command.prepares name t (types_of params) ∷ [] in
      let c = Command.executes name (first_values params) in
      outcome (session server true name query params (connected s))
      ≡ some (checked (server.answer sent c) (sent ++ c ∷ []))
session-prepared server name query t params s n h e l m a =
    let (b, p, q, r, z) =
      expand_lem parameter_name server.realloc 1 query t (marked-ne query n h) e l m in
    rw
      (
        prepare_marked server name query params s b p n h,
        q,
        bind_first server name query params s t a,
      )
      (execute_first server name query params s t)
