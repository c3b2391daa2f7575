-- ===== src/Drivers/Mysql/Sends.antt =====
-- The statements of the MySQL driver that it emulates.
use my_sqltutorials.Prelude.{
  ℕ, ◌+◌, ◌*◌, ◌^◌, ◌<◌, ◌≤◌, ◌≡◌, ◌≢◌, ◌⊎◌, refl, ap, arith, Bool, true, false, Option, some, none,
  List, [], if◌then◌else◌, inl, inr, Chars, length, get_elem?,
}
use mathlib.Core.Option
use my_sqltutorials.Drivers.Values.{Bind, value_text}
use my_sqltutorials.Drivers.Expand.{expand, Outcome, Buffer, substitute, empty_buffer}
use my_sqltutorials.Drivers.Expand.Fills.{expand_lem}
use my_sqltutorials.Drivers.Mysql.{
  Client, Options, Command, Stmt, Ending, ends, mysql_drv_prepare, mysql_drv_bind_param,
  mysql_drv_execute, mysql_drv_query,
}

-- A new statement.
abbrev pub new_stmt : Stmt
new_stmt = record { ptr = false; emulated = false; query = []; bound_param = [] }

-- A statement is prepared, bound to values and executed, where the first two succeed.
abbrev pub session :
    (fuel : ℕ)
    → Client
    → Options
    → (init_ok : Bool) → (error param_count : ℕ) → (bind_fails : Bool) → Chars
    → List Bind
    → List Command
    → Option Ending
session fuel client o init_ok error param_count bind_fails query params sent =
    let (failed, s) = mysql_drv_prepare client o init_ok error query new_stmt in
    if failed
    then none
    else let (failed', s') = mysql_drv_bind_param o param_count bind_fails params s in
      if failed' then none else some (mysql_drv_execute fuel client o s' sent)

abbrev pub texts_of : List Bind → ℕ → Option Chars
texts_of params k = Option.map value_text (get_elem? params k)

-- The driver emulates statements, or the server has refused to prepare this one.
abbrev pub Emulates : Client → Options → (init_ok : Bool) → (error : ℕ) → Type 0
Emulates client o init_ok error =
    (o.use_ps ≡ false)
    ⊎ (o.use_ps ≡ true) × (init_ok ≡ true) × (error ≡ client.unsupported_ps) × (error ≢ 0)

module _ (fuel : ℕ) (client : Client) (o : Options) (live : o.dry_run ≡ false) where
  execute_emulated :
      (s : Stmt) (b : Buffer) (sent : List Command)
      → s.emulated ≡ true
      → expand client.realloc (texts_of s.bound_param) 0 s.query empty_buffer ≡ Outcome.done b
      → mysql_drv_execute fuel client o s sent ≡ ends (mysql_drv_query fuel client o b.text sent)
  unfolding mysql_drv_execute
  execute_emulated s b sent e f = ground (arith, f)

  prepare_emulated :
      (init_ok : Bool) (error : ℕ) (query : Chars)
      → Emulates client o init_ok error
      → (s : Stmt) × (mysql_drv_prepare client o init_ok error query new_stmt ≡ (false, s))
        × (s.emulated ≡ true)
        × (s.query ≡ query)
  unfolding mysql_drv_prepare
  prepare_emulated init_ok error query (inl e) =
      (record new_stmt { emulated = true; query = query }, ground arith, refl, refl)
  prepare_emulated init_ok error query (inr (u, a, b, c)) =
      (record new_stmt { ptr = true; emulated = true; query = query }, ground arith, refl, refl)

  -- Where the driver emulates a statement, since the options or the server want it, the query is
  -- not empty and has a value for each `?`, the text with the values in the places of the `?` is
  -- shorter than 2^29 characters, and every request of memory up to twice its length and 256 bytes
  -- is met, then to prepare the statement, bind it and execute it does what mysql_drv_query does
  -- with that text.
  pub session-emulated :
      (init_ok bind_fails : Bool) (error param_count : ℕ) (query t : Chars) (params : List Bind)
      (sent : List Command)
      → Emulates client o init_ok error
      → query ≢ []
      → substitute (texts_of params) 0 query ≡ some t
      → length t < 2 ^ 29
      → ((k : ℕ) → k ≤ 2 * length t + 256 → client.realloc k ≡ true)
      → session fuel client o init_ok error param_count bind_fails query params sent
        ≡ some (ends (mysql_drv_query fuel client o t sent))
  unfolding mysql_drv_bind_param
  session-emulated init_ok bind_fails error param_count query t params sent em ne e l m =
      let (b, p, q, r, z) = expand_lem (texts_of params) client.realloc 0 query t ne e l m in
      let (s, prep, on, text) = prepare_emulated init_ok error query em in
      let s' = record s { bound_param = params } in
      let run = execute_emulated s' b sent on (rw text p) in
      ground (
        arith,
        prep,
        ap (λ (u : Bool × Stmt). u.0) prep,
        ap (λ (u : Bool × Stmt). u.1) prep,
        run,
        q,
      )
