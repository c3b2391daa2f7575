-- ===== src/Scripts/Tests.antt =====
-- A statement of a number and a text at work.
use my_sqltutorials.Prelude.{
  ◌<◌, suc, zero, arith, true, some, ℕ, zero, suc, ◌≡◌, refl, arith, true, Option, some, none, [],
  ◌∷◌, Chars, inr,
}
use my_sqltutorials.Prelude.Int.{ℤ, pos, negsuc}
use my_sqltutorials.Scripts.{
  LuaNumber, to_int, LuaValue, nil, number, string, other, Lua, Driver, integer, bytes, null,
  no_buffer, seen_all, seen, strncpy, sb_lua_db_execute, sb_lua_db_bind_param, set_values,
  set_value, set_slot, store_text, rebind_and_send, send, rebind, rebind_slot, bind_values,
  bind_value, bind_unless,
}
use my_sqltutorials.Scripts.Slots.{IsChecking, all_wanted, wanted, int_kind, char_kind}
use my_sqltutorials.Scripts.Sends.{run, each_wanted}
use my_sqltutorials.Scripts.Binds.{
  session, session-wanted, exact, pairs, shape_of, kind_of, any_text, is_text,
}
use my_sqltutorials.Scripts.Events.{
  Pcall, raised_number, Executed, IsRestart, IsResult, EndsAt, sb_lua_op_execute_request,
  execute_request-EndsAt,
}
use my_sqltutorials.Scripts.Stale.{session_nil}

abbrev to_number : LuaValue → Option LuaNumber
to_number (number n) = some n
to_number nil = none
to_number (string s) = none
to_number other = none

abbrev to_text : LuaValue → Option Chars
to_text (string s) = some s
to_text nil = none
to_text (number n) = none
to_text other = none

abbrev strict : Lua
strict = record { checknumber = to_number; checkstring = to_text }

strict-IsChecking : IsChecking strict
strict-IsChecking = record { numbers = λ n. refl; strings = λ s. refl }

abbrev willing : Driver
willing = record { binds = λ bs. true; runs = λ vs. true }

-- The number n at the key 1, and a text elsewhere.
abbrev row : ℕ → Chars → ℤ → LuaValue
row n s (pos zero) = string s
row n s (pos (suc zero)) = number (exact (pos n))
row n s (pos (suc (suc k))) = string s
row n s (negsuc k) = string s

-- The parameter that is nil at the first binding of the buffers has none behind it.
abbrev first_nil : ℤ → LuaValue
first_nil (pos zero) = nil
first_nil (pos (suc zero)) = nil
first_nil (pos (suc (suc k))) = string (97 ∷ [])
first_nil (negsuc k) = nil

late_number :
    session strict willing
      ((pos 1, number (exact (pos 0))) ∷ (pos 2, string []) ∷ [])
      (first_nil ∷ row 7 (98 ∷ []) ∷ [])
    ≡ some ((null ∷ bytes (97 ∷ []) ∷ []) ∷ (no_buffer ∷ bytes (98 ∷ []) ∷ []) ∷ [])
unfolding session run pairs sb_lua_db_bind_param bind_values bind_value bind_unless
    sb_lua_db_execute set_values set_value set_slot store_text rebind rebind_slot rebind_and_send
    send seen_all seen strncpy to_int
late_number = refl

wrong_value : bind_value strict (number (exact (pos 1))) nil ≡ none
unfolding bind_value
wrong_value = refl

strncpy_zero : strncpy (97 ∷ 0 ∷ 98 ∷ []) ≡ 97 ∷ 0 ∷ 0 ∷ []
unfolding strncpy
strncpy_zero = refl

two_wanted :
    each_wanted
      (row 7 (97 ∷ []) ∷ row 8 (98 ∷ 99 ∷ []) ∷ [])
      ((pos 1, int_kind) ∷ (pos 2, char_kind) ∷ [])
    ≡ some (
        (integer (pos 7) ∷ bytes (97 ∷ []) ∷ [])
        ∷ (integer (pos 8) ∷ bytes (98 ∷ 99 ∷ []) ∷ [])
        ∷ [])
unfolding each_wanted all_wanted wanted strncpy to_int
two_wanted = refl

two_shape :
    shape_of ((pos 1, number (exact (pos 0))) ∷ (pos 2, string []) ∷ [])
    ≡ some ((pos 1, int_kind) ∷ (pos 2, char_kind) ∷ [])
unfolding shape_of kind_of to_int
two_shape = refl

two_text : any_text (row 7 (97 ∷ [])) ((pos 1, int_kind) ∷ (pos 2, char_kind) ∷ []) ≡ true
unfolding any_text is_text
two_text = refl

session-wanted_example :
    session strict willing
      ((pos 1, number (exact (pos 0))) ∷ (pos 2, string []) ∷ [])
      (row 7 (97 ∷ []) ∷ row 8 (98 ∷ 99 ∷ []) ∷ [])
    ≡ some (
        (integer (pos 7) ∷ bytes (97 ∷ []) ∷ [])
        ∷ (integer (pos 8) ∷ bytes (98 ∷ 99 ∷ []) ∷ [])
        ∷ [])
session-wanted_example =
    session-wanted strict willing ((pos 1, number (exact (pos 0))) ∷ (pos 2, string []) ∷ [])
      ((pos 1, int_kind) ∷ (pos 2, char_kind) ∷ []) (row 7 (97 ∷ [])) (row 8 (98 ∷ 99 ∷ []) ∷ [])
      ((integer (pos 7) ∷ bytes (97 ∷ []) ∷ [])
        ∷ (integer (pos 8) ∷ bytes (98 ∷ 99 ∷ []) ∷ [])
        ∷ [])
      strict-IsChecking (λ bs. refl) two_shape (omega arith) (inr two_text) two_wanted

one_int : to_int (exact (pos 1)) ≡ some (pos 1)
unfolding to_int
one_int = refl

session_nil_example :
    session strict willing ((pos 1, string []) ∷ []) ((λ k. string (97 ∷ [])) ∷ (λ k. nil) ∷ [])
    ≡ some ((bytes (strncpy (97 ∷ [])) ∷ []) ∷ (bytes (strncpy (97 ∷ [])) ∷ []) ∷ [])
session_nil_example =
    session_nil strict willing (pos 1) [] (97 ∷ []) strict-IsChecking one_int (λ bs. refl)
      (omega arith)

-- Two restarts, and an error that is no restart.
abbrev third_fails : ℕ → Pcall
third_fails zero = raised_number 1
third_fails (suc zero) = raised_number 1
third_fails (suc (suc i)) = raised_number 3

two-IsRestart : IsRestart (third_fails 0) × IsRestart (third_fails 1)
two-IsRestart = (refl, refl)

third_last : ¬ IsRestart (third_fails 2)
third_last e = ground arith

third_fails-EndsAt : EndsAt third_fails 2
third_fails-EndsAt = record { before = restarts_before; last = third_last }
  where
    restarts_before : (i : ℕ) → i < 2 → IsRestart (third_fails i)
    restarts_before zero h = two-IsRestart.0
    restarts_before (suc zero) h = two-IsRestart.1
    restarts_before (suc (suc i)) h = absurd (omega arith)

execute_request_example :
    (x : Executed) × (sb_lua_op_execute_request 3 third_fails ≡ some x)
    × IsResult (third_fails 2) 3 x
execute_request_example = execute_request-EndsAt 3 2 third_fails third_fails-EndsAt (omega arith)
