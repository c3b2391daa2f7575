-- ===== src/Scripts/Sends.antt =====
-- What the parameters hold when a script executes a statement again and again.
use my_sqltutorials.Prelude.{
  ◌>>=◌, >>=-some, ◌≡◌, refl, ap, ◌⊎◌, arith, Bool, true, false, Option, some, List, [], ◌∷◌, ◌∙◌,
  inl, inr,
}
use my_sqltutorials.Prelude.Int.{ℤ}
use my_sqltutorials.Scripts.{
  LuaValue, Lua, Param, Bound, Seen, Driver, Stmt, rebind, sb_lua_db_execute, rebind_and_send, send,
}
use my_sqltutorials.Scripts.Slots.{IsChecking, Kind, all_wanted, shape, AllFit, any_longer}
use my_sqltutorials.Scripts.Stores.{AreStored, values_lem}

-- The statement is bound to its buffers, or this table has it bound again.
abbrev pub IsSound : Stmt → (get : ℤ → LuaValue) → Type 0
IsSound s get = AllFit s.bound s.params ⊎ (any_longer get s.params ≡ true)

rebound_lem :
    (driver : Driver) (get : ℤ → LuaValue) (s : Stmt) (qs : List Param) (flag : Bool)
    (vs : List Seen)
    → ((bs : List Bound) → driver.binds bs ≡ true)
    → AreStored get s.params qs flag vs
    → IsSound s get
    → (t : Stmt) × (rebind_and_send driver s.bound qs flag ≡ some (vs, driver.runs vs, t))
      × (shape t.params ≡ shape s.params)
      × AllFit t.bound t.params
unfolding rebind_and_send send
rebound_lem driver get s qs true vs accepts r sound = (
  record { params = qs; bound = rebind qs },
  rw (accepts (rebind qs)) (rw (r.read (rebind qs) r.fit) refl),
  r.same_shape,
  r.fit,
)
rebound_lem driver get s qs false vs accepts r sound =
    let fit : AllFit s.bound qs = elim sound [
      | inl h ↦ r.kept refl s.bound h
      | inr h ↦ absurd (ground (arith, r.moved h))
    ] in
    (record { params = qs; bound = s.bound }, rw (r.read s.bound fit) refl, r.same_shape, fit)

-- One execution sends the values of the table, and leaves the statement bound to its buffers.
pub execute_lem :
    (lua : Lua) (driver : Driver) (get : ℤ → LuaValue) (s : Stmt) (vs : List Seen)
    → IsChecking lua
    → ((bs : List Bound) → driver.binds bs ≡ true)
    → all_wanted get (shape s.params) ≡ some vs
    → IsSound s get
    → (t : Stmt) × (sb_lua_db_execute lua driver get s ≡ some (vs, driver.runs vs, t))
      × (shape t.params ≡ shape s.params)
      × AllFit t.bound t.params
unfolding sb_lua_db_execute
execute_lem lua driver get s vs c accepts e sound =
    let (qs, flag, eq, r) = values_lem lua c get s.params vs e in
    let (t, et, same, fit) = rebound_lem driver get s qs flag vs accepts r sound in
    (t, rw eq et, same, fit)

-- A script that executes a statement with one table after another, also after a db_execute that
-- fails.
unfoldable pub run : Lua → Driver → List (ℤ → LuaValue) → Stmt → Option (List (List Seen))
unfolding sb_lua_db_execute
run lua driver [] s = some []
run lua driver (get ∷ gets) s = do
  (vs, runs, t) ← sb_lua_db_execute lua driver get s
  rest ← run lua driver gets t
  some (vs ∷ rest)

unfoldable pub each_wanted : List (ℤ → LuaValue) → List (ℤ × Kind) → Option (List (List Seen))
unfolding all_wanted
each_wanted [] params = some []
each_wanted (get ∷ gets) params = do
  vs ← all_wanted get params
  rest ← each_wanted gets params
  some (vs ∷ rest)

pub bound_lem :
    (lua : Lua) (driver : Driver) (gets : List (ℤ → LuaValue)) (s : Stmt) (vss : List (List Seen))
    → IsChecking lua
    → ((bs : List Bound) → driver.binds bs ≡ true)
    → each_wanted gets (shape s.params) ≡ some vss
    → AllFit s.bound s.params
    → run lua driver gets s ≡ some vss
unfolding run each_wanted
bound_lem lua driver [] s vss c accepts e fit = e
bound_lem lua driver (get ∷ gets) s vss c accepts e fit =
    let (vs, ev, e') =
      >>=-some (all_wanted get (shape s.params))
        (λ vs. each_wanted gets (shape s.params) >>= (λ rest. some (vs ∷ rest))) vss e in
    let (rest, er, e'') =
      >>=-some (each_wanted gets (shape s.params)) (λ rest. some (vs ∷ rest)) vss e' in
    let (t, et, same, fit') = execute_lem lua driver get s vs c accepts ev (inl fit) in
    let ih = bound_lem lua driver gets t rest c accepts (ap (each_wanted gets) same ∙ er) fit' in
    rw et (rw ih e'')
