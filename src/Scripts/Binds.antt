-- ===== src/Scripts/Binds.antt =====
-- What the parameters of a driver hold where a script binds a table to a statement and executes it.
use my_sqltutorials.Prelude.{
  some_injective, ◌>>=◌, >>=-some, ◌<◌, ◌≡◌, refl, ap, ap₂, sym, ◌∙◌, subst, ◌⊎◌, arith, Bool, true,
  false, Option, none, some, List, [], ◌∷◌, map, ltb, ◌||◌, inl, inr, length,
}
use my_sqltutorials.Prelude.Int.{ℤ, pos}
use my_sqltutorials.Scripts.{
  LuaNumber, to_int, LuaValue, nil, number, string, other, Lua, Slot, int_slot, char_slot, Param,
  Bound, bound_int, Seen, Driver, Stmt, bind_value, bind_values, bind_unless, sb_lua_db_bind_param,
}
use my_sqltutorials.Scripts.Slots.{
  IsChecking, Kind, int_kind, char_kind, kind, all_wanted, shape, Fits, AllFit, is_longer,
  any_longer,
}
use my_sqltutorials.Scripts.Sends.{IsSound, execute_lem, bound_lem, run, each_wanted}

-- The types that the values of a table stand for.
unfoldable pub kind_of : LuaValue → Option Kind
kind_of (number n) = some int_kind
kind_of (string s) = some char_kind
kind_of nil = none
kind_of other = none

-- A whole number.
abbrev pub exact : ℤ → LuaNumber
exact key = record { whole = key; fraction = 0 }

-- The keys of a table and the types of its values; `none` is that one is no `int`, or neither a number
-- nor a text.
unfoldable pub shape_of : List (ℤ × LuaValue) → Option (List (ℤ × Kind))
unfolding kind_of
shape_of [] = some []
shape_of ((key, v) ∷ table) = do
  id ← to_int (exact key)
  k ← kind_of v
  ks ← shape_of table
  some ((id, k) ∷ ks)

-- The table as the interpreter has it.
unfoldable pub pairs : List (ℤ × LuaValue) → List (LuaValue × LuaValue)
pairs [] = []
pairs ((key, v) ∷ table) = (number (exact key), v) ∷ pairs table

abbrev is_char : Kind → Bool
is_char int_kind = false
is_char char_kind = true

unfoldable pub any_char : List (ℤ × Kind) → Bool
any_char [] = false
any_char ((id, k) ∷ ks) = is_char k || any_char ks

unfoldable pub is_text : Kind → LuaValue → Bool
is_text char_kind (string s) = ltb 0 (length s)
is_text k v = false

-- Some text of the table is not empty.
unfoldable pub any_text : (get : ℤ → LuaValue) → List (ℤ × Kind) → Bool
unfolding is_text
any_text get [] = false
any_text get ((id, k) ∷ ks) = is_text k (get id) || any_text get ks

-- The parameters of a table, and the flag of needs_rebind.
record AreBound (ps : List Param) (flag : Bool) (ks : List (ℤ × Kind)) : Type 0 where
  same_shape : shape ps ≡ ks
  char : flag ≡ any_char ks
  fit : any_char ks ≡ false → AllFit (map (λ p. bound_int) ps) ps
  empty : (get : ℤ → LuaValue) → any_longer get ps ≡ any_text get ks

-- The parameter of one value.
fresh_slot : Kind → Slot
fresh_slot int_kind = int_slot (pos 0)
fresh_slot char_kind = char_slot 0 0 []

longer-fresh : (k : Kind) (v : LuaValue) → is_longer v (fresh_slot k) ≡ is_text k v
unfolding is_longer is_text fresh_slot
longer-fresh int_kind nil = refl
longer-fresh int_kind (number n) = refl
longer-fresh int_kind (string s) = refl
longer-fresh int_kind other = refl
longer-fresh char_kind nil = refl
longer-fresh char_kind (number n) = refl
longer-fresh char_kind (string s) = refl
longer-fresh char_kind other = refl

kind-fresh : (k : Kind) → kind (fresh_slot k) ≡ k
unfolding fresh_slot
kind-fresh int_kind = refl
kind-fresh char_kind = refl

fresh_fits : (k : Kind) → is_char k ≡ false → Fits bound_int (fresh_slot k)
unfolding fresh_slot Fits
fresh_fits int_kind e = tt
fresh_fits char_kind e = absurd (ground arith)

bind_lem :
    (lua : Lua) (n : LuaNumber) (id : ℤ) (v : LuaValue) (k : Kind)
    → IsChecking lua
    → to_int n ≡ some id
    → kind_of v ≡ some k
    → bind_value lua (number n) v
      ≡ some (record { id = id; is_null = false; slot = fresh_slot k }, is_char k)
unfolding kind_of bind_value fresh_slot
bind_lem lua n id (number m) int_kind c i e = rw (c.numbers n) (rw i refl)
bind_lem lua n id (string s) char_kind c i e = rw (c.numbers n) (rw i refl)
bind_lem lua n id (number m) char_kind c i e = absurd (ground arith)
bind_lem lua n id (string s) int_kind c i e = absurd (ground arith)
bind_lem lua n id nil k c i e = absurd (ground arith)
bind_lem lua n id other k c i e = absurd (ground arith)

one_more-AreBound :
    (id : ℤ) (k : Kind) (ps : List Param) (flag : Bool) (ks : List (ℤ × Kind))
    → AreBound ps flag ks
    → AreBound
        (record { id = id; is_null = false; slot = fresh_slot k } ∷ ps)
        (is_char k || flag)
        ((id, k) ∷ ks)
unfolding shape any_char AllFit any_longer any_text
one_more-AreBound id k ps flag ks r = record {
  same_shape = ap₂ (λ k l. (id, k) ∷ l) (kind-fresh k) r.same_shape;
  char = ap (λ b. is_char k || b) r.char;
  fit = λ e. (fresh_fits k (ground (arith, e)), r.fit (ground (arith, e)));
  empty = λ get. ap₂ (λ a b. a || b) (longer-fresh k (get id)) (r.empty get);
}

none-AreBound : AreBound [] false []
unfolding shape any_char AllFit any_longer any_text
none-AreBound = record { same_shape = refl; char = refl; fit = λ e. tt; empty = λ get. refl }

binds_lem :
    (lua : Lua) (table : List (ℤ × LuaValue)) (ks : List (ℤ × Kind))
    → IsChecking lua
    → shape_of table ≡ some ks
    → (ps : List Param) × (flag : Bool) × (bind_values lua (pairs table) ≡ some (ps, flag))
      × AreBound ps flag ks
unfolding shape_of bind_values pairs
binds_lem lua [] ks c e =
    ([], false, refl, subst (AreBound [] false) (some_injective e) none-AreBound)
binds_lem lua ((key, v) ∷ table) ks c e =
    let (id, ei, f) =
      >>=-some (to_int (exact key))
        (λ id. kind_of v >>= (λ k. shape_of table >>= (λ ks. some ((id, k) ∷ ks)))) ks e in
    let (k, ek, e') =
      >>=-some (kind_of v) (λ k. shape_of table >>= (λ ks. some ((id, k) ∷ ks))) ks f in
    let (ls, el, e'') = >>=-some (shape_of table) (λ ks. some ((id, k) ∷ ks)) ks e' in
    let (ps, flag, eq, r) = binds_lem lua table ls c el in
    let qs = record { id = id; is_null = false; slot = fresh_slot k } ∷ ps in
    (
      qs,
      is_char k || flag,
      rw (bind_lem lua (exact key) id v k c ei ek) (rw eq refl),
      subst (AreBound qs (is_char k || flag)) (some_injective e'')
          (one_more-AreBound id k ps flag ls r),
    )

unless-IsSound :
    (driver : Driver) (get : ℤ → LuaValue) (ps : List Param) (flag : Bool) (ks : List (ℤ × Kind))
    → ((bs : List Bound) → driver.binds bs ≡ true)
    → AreBound ps flag ks
    → (any_char ks ≡ false) ⊎ (any_text get ks ≡ true)
    → (s : Stmt) × (bind_unless driver ps flag ≡ some s) × (shape s.params ≡ ks) × IsSound s get
unfolding bind_unless
unless-IsSound driver get ps true ks accepts r starts = (
  record { params = ps; bound = [] },
  refl,
  r.same_shape,
  elim starts [ inl h ↦ absurd (ground (arith, r.char)) | inr h ↦ inr (r.empty get ∙ h) ],
)
unless-IsSound driver get ps false ks accepts r starts =
    let bound = map (λ p. bound_int) ps in
    (
      record { params = ps; bound = bound },
      rw (accepts bound) refl,
      r.same_shape,
      inl (r.fit (sym r.char)),
    )

bind_param-IsSound :
    (lua : Lua) (driver : Driver) (get : ℤ → LuaValue) (table : List (ℤ × LuaValue))
    (ks : List (ℤ × Kind))
    → IsChecking lua
    → ((bs : List Bound) → driver.binds bs ≡ true)
    → shape_of table ≡ some ks
    → 0 < length table
    → (any_char ks ≡ false) ⊎ (any_text get ks ≡ true)
    → (s : Stmt) × (sb_lua_db_bind_param lua driver (pairs table) ≡ some s)
      × (shape s.params ≡ ks)
      × IsSound s get
unfolding sb_lua_db_bind_param pairs
bind_param-IsSound lua driver get [] ks c accepts e some_pair starts = absurd (omega arith)
bind_param-IsSound lua driver get (pair ∷ table) ks c accepts e some_pair starts =
    let (ps, flag, eq, r) = binds_lem lua (pair ∷ table) ks c e in
    let (s, es, same, sound) = unless-IsSound driver get ps flag ks accepts r starts in
    (s, rw eq es, same, sound)

-- A script that binds a table to a statement and executes it with one table after another.
unfoldable pub session :
    Lua → Driver → List (ℤ × LuaValue) → List (ℤ → LuaValue) → Option (List (List Seen))
unfolding sb_lua_db_bind_param run
session lua driver table gets = do
  s ← sb_lua_db_bind_param lua driver (pairs table)
  run lua driver gets s

-- Where db_bind_param accepts the parameters that it is given, and a statement is bound to a table
-- of numbers and texts that is not empty and has `int` keys, then at each of its executions the
-- parameters that the driver has been given hold the values of the table as they are at that time,
-- for a driver that reads the flag for null and the length of each, as the client library of MySQL
-- does for a prepared statement: whatever the lengths of the texts, as long as the values keep
-- their types and the numbers are within `int`, and either there are no texts in the table or one
-- is not empty at the first execution. A number is the `int` that its double is truncated to, and
-- a text is as strncpy copies it.
pub session-wanted :
    (lua : Lua) (driver : Driver) (table : List (ℤ × LuaValue)) (ks : List (ℤ × Kind))
    (get : ℤ → LuaValue) (gets : List (ℤ → LuaValue)) (vss : List (List Seen))
    → IsChecking lua
    → ((bs : List Bound) → driver.binds bs ≡ true)
    → shape_of table ≡ some ks
    → 0 < length table
    → (any_char ks ≡ false) ⊎ (any_text get ks ≡ true)
    → each_wanted (get ∷ gets) ks ≡ some vss
    → session lua driver table (get ∷ gets) ≡ some vss
unfolding session run each_wanted
session-wanted lua driver table ks get gets vss c accepts es some_pair starts e =
    let (s, eb, same, sound) =
      bind_param-IsSound lua driver get table ks c accepts es some_pair starts in
    let (vs, ev, e') =
      >>=-some (all_wanted get ks) (λ vs. each_wanted gets ks >>= (λ rest. some (vs ∷ rest))) vss
        e in
    let (rest, er, e'') = >>=-some (each_wanted gets ks) (λ rest. some (vs ∷ rest)) vss e' in
    let (t, et, same', fit) =
      execute_lem lua driver get s vs c accepts (ap (all_wanted get) same ∙ ev) sound in
    let all =
      bound_lem lua driver gets t rest c accepts (ap (each_wanted gets) (same' ∙ same) ∙ er) fit in
    rw eb (rw et (rw all e''))
