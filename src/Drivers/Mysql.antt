-- ===== src/Drivers/Mysql.antt =====
-- drivers/mysql/drv_mysql.c, with HAVE_PS: the hosts, the errors and the statements of the MySQL
-- driver. The server and the client library are parameters; the allocations other than those of a
-- query's buffer succeed.
pub mod RoundRobin
pub mod Errors
pub mod Sends
use my_sqltutorials.Prelude.{
  ℕ, zero, suc, ◌+◌, ◌-◌, ◌*◌, ◌%◌, ◌<◌, ◌≡◌, arith, Bool, true, false, not, Option, List, [], ◌∷◌,
  ◌++◌, map, ◌==◌, ltb, leb, ◌&&◌, ◌||◌, if◌then◌else◌, Chars, length, get_elem?, get_or,
}
use mathlib.Core.Option.{some}
use mathlib.Core.Option
use my_sqltutorials.Prelude.Words.{u32_mod, sub32}
use my_sqltutorials.Logger.Text.{same_text}
use my_sqltutorials.Db.{DbError}
use my_sqltutorials.Drivers.Values.{Bind, value_text}
use my_sqltutorials.Drivers.Expand.{expand, Outcome, empty_buffer}

-- The lists of the options, and hosts_pos and sockets_pos: 0 for the head of the list, and k for
-- its k-th item.
pub record Hosts : Type 0 where
  pub hosts : List Chars
  pub sockets : List Chars
  pub hosts_pos : ℕ
  pub sockets_pos : ℕ

-- SB_LIST_ITEM_NEXT in a list of n items.
abbrev item_next : (n pos : ℕ) → ℕ
item_next n pos = if leb n pos then 0 else pos + 1

-- The head is passed over.
unfoldable pub next_pos : (n pos : ℕ) → ℕ
next_pos n pos = if item_next n pos == 0 then item_next n 0 else item_next n pos

-- mysql_drv_init, where the list of hosts is not empty; otherwise it fails.
unfoldable pub mysql_drv_init : (hosts sockets : List Chars) → Option Hosts
mysql_drv_init [] sockets = Option.none
mysql_drv_init (h ∷ hosts) sockets =
    some (record { hosts = h ∷ hosts; sockets = sockets; hosts_pos = 0; sockets_pos = 0 })

-- Where a connection goes: a host, or a socket of the local host.
pub data Target : Type 0 where
  host : Option Chars → Target
  socket : Option Chars → Target

-- The part of mysql_drv_connect under the mutex. An item is `none` where there is none.
unfoldable pub choose_target : Hosts → Target × Hosts
choose_target h =
    if length h.sockets == 0
    then (let pos = next_pos (length h.hosts) h.hosts_pos in
        (host (get_elem? h.hosts (pos - 1)), record h { hosts_pos = pos }))
    else (let pos = next_pos (length h.sockets) h.sockets_pos in
        (socket (get_elem? h.sockets (pos - 1)), record h { sockets_pos = pos }))

-- mysql_drv_connect: the flag is the result 1, `accepts` tells whether a target can be connected to.
unfoldable pub mysql_drv_connect :
    (dry_run : Bool) → (accepts : Target → Bool) → Hosts → Bool × Option Target × Hosts
unfolding choose_target
mysql_drv_connect dry_run accepts h =
    if dry_run
    then (false, Option.none, h)
    else let (target, h') = choose_target h in
      if accepts target then (false, some target, h') else (true, Option.none, h')

-- What is sent: a query, or the execution of a statement.
pub data Command : Type 0 where
  queries : Chars → Command
  executes : (query : Chars) → List Bind → Command

-- `answer` is the error number of the server for a command after those before, 0 for success;
-- `fails` and `stopped` are the result of the n-th attempt to connect again, and sb_globals.error
-- behind it. `is_lost` tells the four errors of a lost connection (CR_SERVER_LOST and the others of
-- check_error).
pub record Client : Type 0 where
  pub answer : List Command → Command → ℕ
  pub fails : ℕ → Bool
  pub stopped : ℕ → Bool
  pub is_lost : ℕ → Bool
  pub unsupported_ps : ℕ
  pub realloc : ℕ → Bool

-- The loop of mysql_drv_reconnect at the n-th attempt; `none` is that it still goes on.
unfoldable pub mysql_drv_reconnect : (fuel : ℕ) → Client → (n : ℕ) → Option DbError
mysql_drv_reconnect zero client n = Option.none
mysql_drv_reconnect (suc fuel) client n =
    let again = mysql_drv_reconnect fuel client (n + 1) in
    if client.fails n
    then if client.stopped n then some DbError.failed else again
    else some DbError.reconnected

-- atoi, as an `unsigned int`: spaces, a sign, and digits.
abbrev is_space : ℕ → Bool
is_space c = (c == 32) || (leb 9 c && leb c 13)

unfoldable pub read_digits : ℕ → Chars → ℕ
read_digits n [] = n
read_digits n (c ∷ s) =
    let more = read_digits (n * 10 + (c - 48)) s in if leb 48 c && leb c 57 then more else n

unfoldable pub atoi : Chars → ℕ
unfolding read_digits
atoi [] = 0
atoi (c ∷ s) =
    let rest = atoi s in
    if is_space c
    then rest
    else if c == 45
    then sub32 0 (read_digits 0 s % u32_mod)
    else if c == 43
    then read_digits 0 s % u32_mod
    else read_digits 0 (c ∷ s) % u32_mod

-- "all"
abbrev pub word_all : Chars
word_all = 97 ∷ 108 ∷ 108 ∷ []

-- An item of the list of ignored errors fits an error.
abbrev pub is_listed : ℕ → Chars → Bool
is_listed error item = (error == atoi item) || same_text item word_all

unfoldable pub check_error : (fuel : ℕ) → Client → List Chars → (error : ℕ) → Option DbError
unfolding mysql_drv_reconnect
check_error fuel client [] error = some DbError.failed
check_error fuel client (item ∷ ignored) error =
    let more = check_error fuel client ignored error in
    if is_listed error item
    then if client.is_lost error
      then mysql_drv_reconnect fuel client 0
      else some DbError.restart_transaction
    else more

-- The options that the operations read: mysql-dry-run, use_ps and mysql-ignore-errors.
pub record Options : Type 0 where
  pub dry_run : Bool
  pub use_ps : Bool
  pub ignored_errors : List Chars

-- The result of a command that is sent.
abbrev pub sends : (fuel : ℕ) → Client → Options → Command → List Command → Option DbError
sends fuel client o c sent =
    let error = client.answer sent c in
    if error == 0 then some DbError.none else check_error fuel client o.ignored_errors error

-- The commands sent after the operation are given too.
unfoldable pub mysql_drv_query :
    (fuel : ℕ) → Client → Options → Chars → List Command → Option DbError × List Command
unfolding check_error
mysql_drv_query fuel client o text sent =
    if o.dry_run
    then (some DbError.none, sent)
    else (sends fuel client o (queries text) sent, sent ++ queries text ∷ [])

-- db_stmt_t: `ptr` tells whether there is a statement of the server.
pub record Stmt : Type 0 where
  pub ptr : Bool
  pub emulated : Bool
  pub query : Chars
  pub bound_param : List Bind

-- `init_ok` is the result of mysql_stmt_init, and `error` that of mysql_stmt_prepare, 0 for success.
-- The flag is the result 1.
unfoldable pub mysql_drv_prepare :
    Client → Options → (init_ok : Bool) → (error : ℕ) → Chars → Stmt → Bool × Stmt
mysql_drv_prepare client o init_ok error text s =
    if o.dry_run
    then (false, s)
    else if not o.use_ps
    then (false, record s { emulated = true; query = text })
    else if not init_ok
    then (true, s)
    else if error == 0
    then (false, record s { ptr = true; query = text })
    else if error == client.unsupported_ps
    then (false, record s { ptr = true; emulated = true; query = text })
    else (true, record s { ptr = true })

-- `param_count` is what the server counts; the library keeps the values.
unfoldable pub mysql_drv_bind_param :
    Options → (param_count : ℕ) → (bind_fails : Bool) → List Bind → Stmt → Bool × Stmt
mysql_drv_bind_param o param_count bind_fails params s =
    if o.dry_run
    then (false, s)
    else if s.emulated
    then (false, record s { bound_param = params })
    else if not s.ptr || not (param_count == length params)
    then (true, s)
    else if bind_fails
    then (true, s)
    else (false, record s { bound_param = params })

-- How an execution ends: with a result, still connecting, or with an access outside the arrays.
pub data Ending : Type 0 where
  results : DbError → List Command → Ending
  connecting outside : Ending

abbrev pub ends : Option DbError × List Command → Ending
ends (some e, sent) = results e sent
ends (Option.none, sent) = connecting

unfoldable pub mysql_drv_execute : (fuel : ℕ) → Client → Options → Stmt → List Command → Ending
mysql_drv_execute fuel client o s sent =
    if o.dry_run
    then results DbError.none sent
    else if s.emulated
    then elim (expand client.realloc (λ k. Option.map value_text (get_elem? s.bound_param k)) 0
        s.query empty_buffer) [
          | Outcome.done b ↦ ends (mysql_drv_query fuel client o b.text sent)
          | Outcome.no_memory ↦ results DbError.failed sent
          | Outcome.unbound ↦ outside
          | Outcome.overrun ↦ outside
          | Outcome.spinning ↦ outside
        ]
    else if not s.ptr
    then results DbError.failed sent
    else let c = executes s.query s.bound_param in ends (sends fuel client o c sent, sent ++ c ∷ [])

-- The flag is the result 1; `close_fails` is the result of mysql_stmt_close.
unfoldable pub mysql_drv_close : Options → (close_fails : Bool) → Stmt → Bool × Stmt
mysql_drv_close o close_fails s =
    if o.dry_run
    then (false, s)
    else if not s.ptr
    then (true, record s { query = [] })
    else (close_fails, record s { query = [] })
