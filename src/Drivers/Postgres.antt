-- ===== src/Drivers/Postgres.antt =====
-- drivers/pgsql/drv_pgsql.c: the statements of the PostgreSQL driver. The server is a parameter; the
-- allocations other than those of the query's buffer succeed.
pub mod Sends
pub mod Params
use my_sqltutorials.Prelude.{
  ℕ, zero, suc, ◌+◌, ◌-◌, ◌<◌, ◌≡◌, arith, Bool, true, false, not, Option, List, [], ◌∷◌, ◌++◌, map,
  ◌==◌, ltb, ◌&&◌, ◌||◌, if◌then◌else◌, Chars, length, get_elem?, take, replicate,
}
use mathlib.Core.Option.{some}
use mathlib.Core.Option
use my_sqltutorials.Prelude.Int.{ℤ, pos, negsuc}
use my_sqltutorials.Prelude.Words.{to_u32}
use my_sqltutorials.Db.{DbError}
use my_sqltutorials.Drivers.Values.{BindType, Bind, print_nat, value_text}
use my_sqltutorials.Drivers.Expand.{expand, Outcome, empty_buffer}

-- What the client library sends: a statement to prepare, with the types of its parameters, an
-- execution of one with its values, or a query. A value is `none` where it is not a C string.
pub data Command : Type 0 where
  prepares : (name query : Chars) → List ℕ → Command
  executes : (name : Chars) → List (Option Chars) → Command
  queries : Chars → Command

-- PGRES_TUPLES_OK or PGRES_COMMAND_OK, or an error with its message.
pub data Answer : Type 0 where
  accepted : Answer
  refused : Chars → Answer

-- What the server answers after the commands before, and the result of realloc for a size.
pub record Server : Type 0 where
  pub answer : List Command → Command → Answer
  pub realloc : ℕ → Bool

-- pg_stmt_t; `pvalues` has what its buffers hold.
pub record PgStmt : Type 0 where
  pub name : Chars
  pub prepared : Bool
  pub nparams : ℕ
  pub ptypes : List ℕ
  pub pvalues : List (Option Chars)

-- db_stmt_t, and the commands sent over its connection, in order. `con` tells whether there is one.
pub record Stmt : Type 0 where
  pub con : Bool
  pub query_text : Chars
  pub emulated : Bool
  pub bound_param : List Bind
  pub ptr : Option PgStmt
  pub sent : List Command

-- A call returns a result and the state, or touches memory that is not its own.
pub data Call {ℓ} (A : Type ℓ) : Type ℓ where
  returns : A → Stmt → Call A
  faults : Call A

abbrev pub max_param_length : ℕ
max_param_length = 256

-- db_pgsql_bind_map and get_pgsql_bind_type
unfoldable pub get_pgsql_bind_type : BindType → ℤ
get_pgsql_bind_type BindType.tinyint = pos 0
get_pgsql_bind_type BindType.smallint = pos 21
get_pgsql_bind_type BindType.int = pos 23
get_pgsql_bind_type BindType.bigint = pos 20
get_pgsql_bind_type BindType.float = pos 700
get_pgsql_bind_type BindType.double = pos 701
get_pgsql_bind_type BindType.datetime = pos 0
get_pgsql_bind_type BindType.timestamp = pos 1114
get_pgsql_bind_type BindType.char = pos 18
get_pgsql_bind_type BindType.varchar = pos 1043
get_pgsql_bind_type BindType.none = negsuc 0
get_pgsql_bind_type BindType.time = negsuc 0
get_pgsql_bind_type BindType.date = negsuc 0

-- The command is sent, and the flag tells whether it is accepted.
abbrev pub send : Server → Command → Stmt → Answer × Stmt
send server c s = (server.answer s.sent c, record s { sent = s.sent ++ c ∷ [] })

-- "$%d"
abbrev pub parameter_name : ℕ → Option Chars
parameter_name k = some (36 ∷ print_nat k)

-- The last value of vcnt, less the first.
unfoldable pub count_marks : Chars → ℕ
count_marks [] = 0
count_marks (c ∷ query) = (if c == 63 then 1 else 0) + count_marks query

abbrev pub fresh : (name query : Chars) → PgStmt
fresh name query = record {
  name = name;
  prepared = false;
  nparams = count_marks query;
  ptypes = [];
  pvalues = [];
}

-- Behind the conversion: a statement with no parameters is prepared at once.
unfoldable pub prepare_converted : Server → (name query converted : Chars) → Stmt → Call Bool
prepare_converted server name query converted s =
    let s' = record s { query_text = converted } in
    if count_marks query == 0
    then (let (a, s'') = send server (Command.prepares name converted []) s' in
        elim a [
          | accepted ↦
              returns false
                (record s'' { ptr = some (record (fresh name query) { prepared = true }) })
          | refused message ↦ returns true s''
        ])
    else returns false (record s' { ptr = some (fresh name query) })

-- `name` is that of get_unique_stmt_name. The flag is the result 1.
unfoldable pub pgsql_drv_prepare :
    Server → (use_ps : Bool) → (name query : Chars) → Stmt → Call Bool
unfolding prepare_converted
pgsql_drv_prepare server use_ps name query s =
    if not s.con
    then returns true s
    else if not use_ps
    then returns false (record s { emulated = true; query_text = query })
    else elim (expand server.realloc parameter_name 1 query empty_buffer) [
      | Outcome.done b ↦ prepare_converted server name query b.text s
      | Outcome.no_memory ↦ returns true s
      | Outcome.unbound ↦ faults
      | Outcome.overrun ↦ faults
      | Outcome.spinning ↦ faults
    ]

-- As `Oid`, which is unsigned.
abbrev pub types_of : List Bind → List ℕ
types_of params = map (λ v. to_u32 (get_pgsql_bind_type v.type)) params

-- Prepares the statement for the types of its parameters, and gives each of them a buffer.
unfoldable pub prepare_bound : Server → List Bind → PgStmt → Stmt → Call Bool
prepare_bound server params p s =
    let types = types_of params in
    let p' = record p { ptypes = types } in
    let (a, s') = send server (Command.prepares p.name s.query_text types) s in
    elim a [
      | refused message ↦ returns true (record s' { ptr = some p' })
      | accepted ↦ returns false (record s' {
        ptr = some (record p' { pvalues = replicate (length params) Option.none; prepared = true });
      })
    ]

unfoldable pub pgsql_drv_bind_param : Server → List Bind → Stmt → Call Bool
unfolding prepare_bound
pgsql_drv_bind_param server params s =
    if not s.con
    then returns true s
    else let s' = record s { bound_param = params } in
      if s.emulated then returns false s' else elim s.ptr [
        | Option.none ↦ faults
        | some p ↦
            if p.prepared
            then returns false s'
            else if not (p.nparams == length params)
            then returns true s'
            else prepare_bound server params p s'
      ]

-- strstr finds the text.
abbrev starts : (word s : Chars) → Bool
starts [] s = true
starts (w ∷ word) [] = false
starts (w ∷ word) (c ∷ s) = (c == w) && starts word s

unfoldable pub contains : (word s : Chars) → Bool
contains word [] = starts word []
contains word (c ∷ s) = starts word (c ∷ s) || contains word s

-- "deadlock detected"
abbrev pub deadlock_message : Chars
deadlock_message =
    100 ∷ 101 ∷ 97 ∷ 100 ∷ 108 ∷ 111 ∷ 99 ∷ 107 ∷ 32 ∷ 100 ∷ 101 ∷ 116 ∷ 101 ∷ 99 ∷ 116 ∷ 101 ∷ 100
    ∷ []

-- "duplicate key value violates unique constraint"
abbrev pub duplicate_message : Chars
duplicate_message =
    100 ∷ 117 ∷ 112 ∷ 108 ∷ 105 ∷ 99 ∷ 97 ∷ 116 ∷ 101 ∷ 32 ∷ 107 ∷ 101 ∷ 121 ∷ 32 ∷ 118 ∷ 97 ∷ 108
    ∷ 117 ∷ 101 ∷ 32 ∷ 118 ∷ 105 ∷ 111 ∷ 108 ∷ 97 ∷ 116 ∷ 101 ∷ 115 ∷ 32 ∷ 117 ∷ 110 ∷ 105 ∷ 113
    ∷ 117 ∷ 101 ∷ 32 ∷ 99 ∷ 111 ∷ 110 ∷ 115 ∷ 116 ∷ 114 ∷ 97 ∷ 105 ∷ 110 ∷ 116 ∷ []

-- "ROLLBACK"
abbrev pub rollback_query : Chars
rollback_query = 82 ∷ 79 ∷ 76 ∷ 76 ∷ 66 ∷ 65 ∷ 67 ∷ 75 ∷ []

-- Sends a rollback for two errors; the transaction is to be restarted then.
unfoldable pub pgsql_check_status : Answer → Stmt → DbError × Stmt
pgsql_check_status accepted s = (DbError.none, s)
pgsql_check_status (refused message) s =
    if contains deadlock_message message || contains duplicate_message message
    then (
      DbError.restart_transaction,
      record s { sent = s.sent ++ Command.queries rollback_query ∷ [] },
    )
    else (DbError.failed, s)

unfoldable pub pgsql_drv_query : Server → Chars → Stmt → DbError × Stmt
unfolding pgsql_check_status
pgsql_drv_query server text s =
    let (a, s') = send server (Command.queries text) s in pgsql_check_status a s'

-- What the buffer of a parameter holds after the conversion of its value: nothing is written where
-- there is a pointer to a flag for null, whatever the flag, and for the type "none". A string that
-- fills the buffer has no end, and other texts are cut.
unfoldable pub converted : Bind → Option Chars → Option Chars
converted v slot = elim v.is_null [
  | some flag ↦ slot
  | Option.none ↦ elim v.type [
    | BindType.char ↦ if ltb (length v.string) max_param_length then some v.string else Option.none
    | BindType.varchar ↦
        if ltb (length v.string) max_param_length then some v.string else Option.none
    | BindType.none ↦ slot
    | _ ↦ some (take (max_param_length - 1) (value_text v))
  ]
]

-- For the parameters of the statement; `none` is an access behind one of the arrays.
unfoldable pub convert_values :
    (nparams : ℕ) → List Bind → List (Option Chars) → Option (List (Option Chars))
unfolding converted
convert_values zero params slots = some slots
convert_values (suc n) [] slots = Option.none
convert_values (suc n) (v ∷ params) [] = elim v.is_null [
  | some flag ↦ convert_values n params []
  | Option.none ↦ Option.none
]
convert_values (suc n) (v ∷ params) (slot ∷ slots) =
    Option.map (λ rest. converted v slot ∷ rest) (convert_values n params slots)

unfoldable pub execute_prepared : Server → PgStmt → List (Option Chars) → Stmt → Call DbError
unfolding pgsql_check_status
execute_prepared server p values s =
    let (a, s') = send server (Command.executes p.name values) s in
    let (e, s'') = pgsql_check_status a s' in
    returns e (record s'' { ptr = some (record p { pvalues = values }) })

unfoldable pub pgsql_drv_execute : Server → Stmt → Call DbError
unfolding convert_values execute_prepared pgsql_drv_query
pgsql_drv_execute server s =
    if s.emulated
    then elim (expand server.realloc (λ k. Option.map value_text (get_elem? s.bound_param k)) 0
        s.query_text empty_buffer) [
          | Outcome.done b ↦ (let (e, s') = pgsql_drv_query server b.text s in returns e s')
          | Outcome.no_memory ↦ returns DbError.failed s
          | Outcome.unbound ↦ faults
          | Outcome.overrun ↦ faults
          | Outcome.spinning ↦ faults
        ]
    else elim s.ptr [
      | Option.none ↦ returns DbError.failed s
      | some p ↦ elim (convert_values p.nparams s.bound_param p.pvalues) [
        | Option.none ↦ faults
        | some values ↦ execute_prepared server p values s
      ]
    ]

-- The flag is the result 1.
unfoldable pub pgsql_drv_close : Stmt → Bool
pgsql_drv_close s = elim s.ptr [ Option.none ↦ true | some p ↦ false ]
