-- ===== src/Scripts.antt =====
-- scripting/script_lua.c: the values that a script in Lua binds to a prepared statement and executes
-- it with. The interpreter and the database driver are parameters; the allocations succeed, the
-- connection and the statement are there, and a statement gets its parameters once.
pub mod Slots
pub mod Stores
pub mod Sends
pub mod Binds
pub mod Stale
pub mod Events
mod Tests
use my_sqltutorials.Prelude.{
  ◌>>=◌, ℕ, zero, suc, ◌+◌, ◌≡◌, arith, Bool, true, false, not, Option, none, some, List, [], ◌∷◌,
  ◌++◌, map, ◌==◌, ltb, ◌&&◌, ◌||◌, if◌then◌else◌, Chars, length, take, drop, replicate,
}
use my_sqltutorials.Prelude.Int.{ℤ, pos, negsuc}
use my_sqltutorials.Options.{in_int}

-- A lua_Number, a `double` that is finite: its whole part, and the digits behind it.
pub record LuaNumber : Type 0 where
  pub whole : ℤ
  pub fraction : ℕ

-- The conversion of a `double` to an `int`; `none` is that C does not define it.
unfoldable pub to_int : LuaNumber → Option ℤ
to_int n = if in_int n.whole then some n.whole else none

-- A value of Lua.
pub data LuaValue : Type 0 where
  nil : LuaValue
  number : LuaNumber → LuaValue
  string : Chars → LuaValue
  other : LuaValue

-- luaL_checknumber and luaL_checkstring of the interpreter; `none` is that they raise an error.
pub record Lua : Type 0 where
  pub checknumber : LuaValue → Option LuaNumber
  pub checkstring : LuaValue → Option Chars

-- `type`, `buf`, `buflen` and what `buf` points to, of a parameter of type DB_TYPE_INT or
-- DB_TYPE_CHAR. The `buf` of a text is NULL for 0, and counts the allocations of the buffer, each of
-- which may have moved it.
pub data Slot : Type 0 where
  int_slot : (value : ℤ) → Slot
  char_slot : (buf buflen : ℕ) (content : Chars) → Slot

-- sb_lua_bind_t
pub record Param : Type 0 where
  pub id : ℤ
  pub is_null : Bool
  pub slot : Slot

-- db_bind_t, as it is given to db_bind_param: it points to the fields of its parameter.
pub data Bound : Type 0 where
  bound_null : Bound
  bound_int : Bound
  bound_char : (buf : ℕ) → Bound

-- What stands behind a db_bind_t, for a driver that reads its flag for null and its length, as the
-- client library of MySQL does for a prepared statement. `no_buffer` is that its buffer is NULL, and `dangling`
-- that its buffer is not the one of the parameter.
pub data Seen : Type 0 where
  null : Seen
  integer : ℤ → Seen
  bytes : Chars → Seen
  no_buffer : Seen
  dangling : Seen

unfoldable pub seen : Bound → (is_null : Bool) → Slot → Seen
seen bound_null is_null slot = if is_null then null else no_buffer
seen bound_int is_null (int_slot n) = if is_null then null else integer n
seen bound_int is_null (char_slot buf buflen content) = dangling
seen (bound_char a) is_null (int_slot n) = dangling
seen (bound_char a) is_null (char_slot buf buflen content) =
    if a == buf then bytes (take buflen content) else dangling

unfoldable pub seen_all : List Bound → List Param → List Seen
unfolding seen
seen_all [] ps = []
seen_all (b ∷ bs) [] = []
seen_all (b ∷ bs) (p ∷ ps) = seen b p.is_null p.slot ∷ seen_all bs ps

-- db_bind_param and db_execute; false is that they fail.
pub record Driver : Type 0 where
  pub binds : List Bound → Bool
  pub runs : List Seen → Bool

-- sb_lua_db_stmt_t, with what db_bind_param got last.
pub record Stmt : Type 0 where
  pub params : List Param
  pub bound : List Bound

-- A pair of the table in the loop of sb_lua_db_bind_param; the flag is that of needs_rebind.
unfoldable pub bind_value : Lua → (key value : LuaValue) → Option (Param × Bool)
bind_value lua key (number n) = do
  n ← lua.checknumber key
  id ← to_int n
  some (record { id = id; is_null = false; slot = int_slot (pos 0) }, false)
bind_value lua key (string s) = do
  n ← lua.checknumber key
  id ← to_int n
  some (record { id = id; is_null = false; slot = char_slot 0 0 [] }, true)
bind_value lua key nil = none
bind_value lua key other = none

unfoldable pub bind_values : Lua → List (LuaValue × LuaValue) → Option (List Param × Bool)
unfolding bind_value
bind_values lua [] = some ([], false)
bind_values lua ((key, value) ∷ table) = do
  (p, f) ← bind_value lua key value
  (ps, g) ← bind_values lua table
  some (p ∷ ps, f || g)

-- sb_lua_db_bind_param from the test of needs_rebind.
unfoldable pub bind_unless : Driver → List Param → (needs_rebind : Bool) → Option Stmt
bind_unless driver ps true = some (record { params = ps; bound = [] })
bind_unless driver ps false =
    let bound = map (λ p. bound_int) ps in
    if driver.binds bound then some (record { params = ps; bound = bound }) else none

-- sb_lua_db_bind_param, for the pairs of the table in the order of lua_next. `none` is an error of
-- the script, or a conversion that C does not define.
unfoldable pub sb_lua_db_bind_param : Lua → Driver → List (LuaValue × LuaValue) → Option Stmt
unfolding bind_values bind_unless
sb_lua_db_bind_param lua driver [] = none
sb_lua_db_bind_param lua driver (pair ∷ table) = do
  (ps, needs_rebind) ← bind_values lua (pair ∷ table)
  bind_unless driver ps needs_rebind

-- strncpy(buf, s, n) for a string s of n bytes: what it writes.
unfoldable pub strncpy : Chars → Chars
strncpy [] = []
strncpy (c ∷ s) = if c == 0 then replicate (length (c ∷ s)) 0 else c ∷ strncpy s

-- The case of DB_TYPE_CHAR in the loop of sb_lua_db_execute.
unfoldable pub store_text : Chars → (buf buflen : ℕ) (content : Chars) → Slot × Bool
unfolding strncpy
store_text s buf buflen content =
    if ltb buflen (length s)
    then (char_slot (suc buf) (length s) (strncpy s), true)
    else (char_slot buf (length s) (strncpy s ++ drop (length s) content), false)

-- The switch in the loop of sb_lua_db_execute; the flag is that of needs_rebind.
unfoldable pub set_slot : Lua → LuaValue → Slot → Option (Slot × Bool)
unfolding store_text
set_slot lua v (int_slot m) = do n ← lua.checknumber v; i ← to_int n; some (int_slot i, false)
set_slot lua v (char_slot buf buflen content) = do
  s ← lua.checkstring v
  some (store_text s buf buflen content)

-- The flag of null, and the slot.
unfoldable pub set_value : Lua → LuaValue → Bool → Slot → Option (Bool × Slot × Bool)
unfolding set_slot
set_value lua nil is_null slot = some (true, slot, false)
set_value lua (number n) is_null slot = do (t, f) ← set_slot lua (number n) slot; some (false, t, f)
set_value lua (string s) is_null slot = do (t, f) ← set_slot lua (string s) slot; some (false, t, f)
set_value lua other is_null slot = do (t, f) ← set_slot lua other slot; some (false, t, f)

-- The loop of sb_lua_db_execute, where the table has `get k` at the key k.
unfoldable pub set_values : Lua → (get : ℤ → LuaValue) → List Param → Option (List Param × Bool)
unfolding set_value
set_values lua get [] = some ([], false)
set_values lua get (p ∷ ps) = do
  (is_null, slot, f) ← set_value lua (get p.id) p.is_null p.slot
  (qs, g) ← set_values lua get ps
  some (record { id = p.id; is_null = is_null; slot = slot } ∷ qs, f || g)

-- An element of `binds` where a rebind is needed.
unfoldable pub rebind_slot : (is_null : Bool) → Slot → Bound
rebind_slot true slot = bound_null
rebind_slot false (int_slot n) = bound_int
rebind_slot false (char_slot buf buflen content) = bound_char buf

unfoldable pub rebind : List Param → List Bound
unfolding rebind_slot
rebind [] = []
rebind (p ∷ ps) = rebind_slot p.is_null p.slot ∷ rebind ps

-- db_execute, with the values behind the parameters and whether it succeeds; otherwise the script
-- gets the number of the error.
unfoldable pub send : Driver → List Bound → List Param → List Seen × Bool × Stmt
unfolding seen_all
send driver bound ps =
    let values = seen_all bound ps in
    (values, driver.runs values, record { params = ps; bound = bound })

-- sb_lua_db_execute from the test of needs_rebind.
unfoldable pub rebind_and_send :
    Driver → List Bound → List Param → (needs_rebind : Bool) → Option (List Seen × Bool × Stmt)
unfolding rebind send
rebind_and_send driver bound ps true =
    if driver.binds (rebind ps) then some (send driver (rebind ps) ps) else none
rebind_and_send driver bound ps false = some (send driver bound ps)

-- sb_lua_db_execute. `none` is any other error of the script, or a conversion that C does not
-- define.
unfoldable pub sb_lua_db_execute :
    Lua → Driver → (get : ℤ → LuaValue) → Stmt → Option (List Seen × Bool × Stmt)
unfolding set_values rebind_and_send
sb_lua_db_execute lua driver get s = do
  (ps, needs_rebind) ← set_values lua get s.params
  rebind_and_send driver s.bound ps needs_rebind
