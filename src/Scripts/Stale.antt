-- ===== src/Scripts/Stale.antt =====
-- Where the database does not read what a script has put into the table.
use my_sqltutorials.Prelude.{
  ◌≡◌, refl, true, false, some, ℕ, List, [], ◌∷◌, Chars, length, replicate, ◌<◌, arith, zero, suc,
}
use my_sqltutorials.Prelude.Int.{ℤ}
use my_sqltutorials.Scripts.{
  to_int, nil, string, Lua, Bound, bound_char, bytes, Driver, Stmt, char_slot, set_values,
  sb_lua_db_bind_param, sb_lua_db_execute, bind_values, bind_value, bind_unless, rebind,
  rebind_and_send, send, seen_all, seen, rebind_slot, set_value, set_slot, store_text, strncpy,
}
use my_sqltutorials.Scripts.Slots.{IsChecking, take-whole}
use my_sqltutorials.Scripts.Sends.{run}
use my_sqltutorials.Scripts.Binds.{session, pairs, exact}

first_text :
    (b : ℕ) (s : Chars)
    → store_text (b ∷ s) 0 0 [] ≡ (char_slot 1 (length (b ∷ s)) (strncpy (b ∷ s)), true)
unfolding store_text
first_text b s = ground arith

-- A statement with a single parameter, a text with an `int` key, and a driver that accepts it:
-- where the text is not empty at the first execution and nil at the second, the second sends the
-- text again, copied as by strncpy, in place of NULL.
pub session_nil :
    (lua : Lua) (driver : Driver) (id : ℤ) (sample s : Chars)
    → IsChecking lua
    → to_int (exact id) ≡ some id
    → ((bs : List Bound) → driver.binds bs ≡ true)
    → 0 < length s
    → session lua driver ((id, string sample) ∷ []) ((λ k. string s) ∷ (λ k. nil) ∷ [])
      ≡ some ((bytes (strncpy s) ∷ []) ∷ (bytes (strncpy s) ∷ []) ∷ [])
unfolding session run pairs sb_lua_db_bind_param bind_values bind_value bind_unless
    sb_lua_db_execute set_values set_value set_slot rebind rebind_slot rebind_and_send send seen_all
    seen
session_nil lua driver id sample [] c i accepts h = absurd (omega arith)
session_nil lua driver id sample (b ∷ s) c i accepts h = rw (c.numbers (exact id)) (
    rw i (
      rw (c.strings (b ∷ s))
        (rw (first_text b s) (rw (accepts (bound_char 1 ∷ [])) (rw (take-whole (b ∷ s)) refl)))))

-- The statement of a text, before any text that is not empty.
abbrev unbound : ℤ → Stmt
unbound id = record {
  params = record { id = id; is_null = false; slot = char_slot 0 0 [] } ∷ [];
  bound = [];
}

run_empty :
    (lua : Lua) (driver : Driver) (id : ℤ) (n : ℕ)
    → IsChecking lua
    → run lua driver (replicate n (λ k. string [])) (unbound id) ≡ some (replicate n [])
unfolding run sb_lua_db_execute set_values set_value set_slot store_text rebind_and_send send
    seen_all strncpy
run_empty lua driver id zero c = refl
run_empty lua driver id (suc n) c = rw (c.strings []) (rw (run_empty lua driver id n c) refl)

-- A statement with a single parameter, a text, that is empty at every execution: the statement is
-- executed without any parameter.
pub session_empty :
    (lua : Lua) (driver : Driver) (id : ℤ) (sample : Chars) (n : ℕ)
    → IsChecking lua
    → to_int (exact id) ≡ some id
    → session lua driver ((id, string sample) ∷ []) (replicate n (λ k. string []))
      ≡ some (replicate n [])
unfolding session pairs sb_lua_db_bind_param bind_values bind_value bind_unless
session_empty lua driver id sample n c i =
    rw (c.numbers (exact id)) (rw i (run_empty lua driver id n c))
