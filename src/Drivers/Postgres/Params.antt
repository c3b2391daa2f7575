-- ===== src/Drivers/Postgres/Params.antt =====
-- The values of the parameters that the PostgreSQL driver sends.
use my_sqltutorials.Prelude.{
  ℕ, zero, suc, ◌^◌, ◌<◌, ◌≤◌, ◌≡◌, ◌≢◌, ◌↔◌, refl, subst, ap, arith, true, false, Option, some,
  none, List, [], ◌∷◌, ◌++◌, Option-cases, inl, inr, Chars, length, replicate,
}
use my_sqltutorials.Drivers.Values.{Bind}
use my_sqltutorials.Drivers.Expand.{substitute}
use my_sqltutorials.Drivers.Postgres.{
  Command, accepted, Server, PgStmt, Stmt, returns, parameter_name, count_marks, types_of,
  pgsql_drv_bind_param, pgsql_drv_execute, converted, convert_values,
}
use my_sqltutorials.Drivers.Postgres.Sends.{
  session, connected, outcome, checked, Gives, session-prepared, first_values, prepared_lem,
}

-- Each value comes with a pointer to a flag for null.
abbrev pub AllFlagged : List Bind → Type 0
AllFlagged [] = Unit {0}
AllFlagged (v ∷ params) = (v.is_null ≢ none) × AllFlagged params

unset-values :
    (params : List Bind) → AllFlagged params → first_values params ≡ replicate (length params) none
unfolding converted
unset-values [] h = refl
unset-values (v ∷ params) h = elim (Option-cases v.is_null) [
  | inl e ↦ absurd (h.0 e)
  | inr (f, e) ↦ rw e (ap (λ l. none ∷ l) (unset-values params h.1))
]

-- Where every value comes with a pointer to a flag for null, whatever the flags, the query has one
-- parameter at least and as many values are bound, the query with its parameters numbered from 1
-- is shorter than 2^29 characters, every request of memory up to twice its length and 256 bytes is
-- met, and the server accepts to prepare the statement, then it is executed with buffers that
-- nothing was written to.
pub session-unset :
    (server : Server) (name query t : Chars) (params : List Bind) (s : Stmt)
    → AllFlagged params
    → count_marks query ≡ length params
    → 0 < length params
    → substitute parameter_name 1 query ≡ some t
    → length t < 2 ^ 29
    → Gives server.realloc (length t)
    → server.answer s.sent (Command.prepares name t (types_of params)) ≡ accepted
    → let sent = s.sent ++ Command.prepares name t (types_of params) ∷ [] in
      let c = Command.executes name (replicate (length params) none) in
      outcome (session server true name query params (connected s))
      ≡ some (checked (server.answer sent c) (sent ++ c ∷ []))
session-unset server name query t params s f n h e l m a =
    subst
      (λ values.
        let sent = s.sent ++ Command.prepares name t (types_of params) ∷ [] in
        let c = Command.executes name values in
        outcome (session server true name query params (connected s))
        ≡ some (checked (server.answer sent c) (sent ++ c ∷ [])))
      (unset-values params f) (session-prepared server name query t params s n h e l m a)

convert-enough :
    (n : ℕ) (params : List Bind) (slots : List (Option Chars))
    → n ≤ length slots
    → (convert_values n params slots ≡ none) ↔ (length params < n)
unfolding convert_values
convert-enough zero params slots h = ground arith
convert-enough (suc n) [] slots h = ground arith
convert-enough (suc n) (v ∷ params) [] h = absurd (omega arith)
convert-enough (suc n) (v ∷ params) (slot ∷ slots) h =
    let ih = convert-enough n params slots (omega arith) in
    elim (Option-cases (convert_values n params slots)) [
      | inl e ↦ rw e ((λ z. omega (arith, ih.0 e)), (λ z. refl))
      | inr (vs, e) ↦
          rw e ((λ z. absurd (ground arith)), (λ z. absurd (ground (arith, ih.1 (omega arith)))))
    ]

-- A statement that is prepared with a buffer for each parameter takes any number of values in a
-- later call of bind_param, and its next execution reads behind the array of the values exactly
-- where there are fewer than parameters.
pub rebind-faults :
    (server : Server) (params : List Bind) (s : Stmt) (p : PgStmt)
    → p.prepared ≡ true
    → p.nparams ≤ length p.pvalues
    → (t : Stmt) × (pgsql_drv_bind_param server params
          (record s { con = true; emulated = false; ptr = some p })
        ≡ returns false t)
      × (t.sent ≡ s.sent)
      × ((outcome (pgsql_drv_execute server t) ≡ none) ↔ (length params < p.nparams))
unfolding pgsql_drv_bind_param pgsql_drv_execute
rebind-faults server params s p e h =
    let t = record s { con = true; emulated = false; ptr = some p; bound_param = params } in
    let iff = convert-enough p.nparams params p.pvalues h in
    (
      t,
      ground arith,
      refl,
      elim (Option-cases (convert_values p.nparams params p.pvalues)) [
        | inl z ↦ rw z ((λ x. iff.0 z), (λ x. refl))
        | inr (vs, z) ↦ rw z (
          (λ x. absurd (ground (arith, prepared_lem server t p vs))),
          (λ x. absurd (ground (arith, iff.1 x))),
        )
      ],
    )
