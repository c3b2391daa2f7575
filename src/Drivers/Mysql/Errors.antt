-- ===== src/Drivers/Mysql/Errors.antt =====
-- What becomes of an error of the server, and the loop that connects again.
use my_sqltutorials.Prelude.{
  ℕ, zero, suc, ◌+◌, ◌<◌, ◌≤◌, ◌≡◌, ◌⊎◌, refl, arith, Bool, true, false, not, some, List, [], ◌∷◌,
  ◌++◌, ◌==◌, ◌||◌, if◌then◌else◌, Bool-cases, ==_iff, inl, inr, Chars,
}
use my_sqltutorials.Db.{DbError}
use my_sqltutorials.Drivers.Mysql.{
  Client, Options, Command, queries, mysql_drv_reconnect, check_error, is_listed, mysql_drv_query,
}

-- The attempts before the m-th fail, with no error set behind them, and that one ends the loop: it
-- succeeds, or the error is set.
pub record EndsAt (client : Client) (m : ℕ) : Type 0 where
  pub waits : (i : ℕ) → i < m → (client.fails i ≡ true) × (client.stopped i ≡ false)
  pub ends : (client.fails m ≡ false) ⊎ (client.stopped m ≡ true)

abbrev pub reconnected_at : Client → ℕ → DbError
reconnected_at client m = if client.fails m then DbError.failed else DbError.reconnected

module _ (client : Client) (m : ℕ) (e : EndsAt client m) where
  reconnect_here :
      (fuel : ℕ) → mysql_drv_reconnect (suc fuel) client m ≡ some (reconnected_at client m)
  unfolding mysql_drv_reconnect
  reconnect_here fuel = ground (arith, e.ends)

  reconnect-at :
      (fuel n : ℕ)
      → n ≤ m
      → m < n + fuel
      → mysql_drv_reconnect fuel client n ≡ some (reconnected_at client m)
  unfolding mysql_drv_reconnect
  reconnect-at zero n h l = absurd (omega arith)
  reconnect-at (suc fuel) n h l = elim (Bool-cases (n == m)) [
    | inl same ↦ let s : n ≡ m = (==_iff n m).0 same in rw s (reconnect_here fuel)
    | inr other ↦
        let (f, g) = e.waits n (ground arith) in
        rw (f, g) (reconnect-at fuel (n + 1) (ground arith) (omega arith))
  ]

-- Some item of the list fits an error.
abbrev pub is_ignored : ℕ → List Chars → Bool
is_ignored error [] = false
is_ignored error (item ∷ ignored) = is_listed error item || is_ignored error ignored

-- What becomes of an error: it ends the thread unless it is ignored, and an ignored one restarts the
-- transaction, unless the connection is lost.
abbrev pub verdict : Client → (m : ℕ) → List Chars → (error : ℕ) → DbError
verdict client m ignored error =
    if error == 0
    then DbError.none
    else if not (is_ignored error ignored)
    then DbError.failed
    else if client.is_lost error
    then reconnected_at client m
    else DbError.restart_transaction

check_error-ignored :
    (fuel : ℕ) (client : Client) (ignored : List Chars) (error : ℕ)
    → check_error fuel client ignored error ≡ (
        if not (is_ignored error ignored)
        then some DbError.failed
        else if client.is_lost error
        then mysql_drv_reconnect fuel client 0
        else some DbError.restart_transaction)
unfolding check_error
check_error-ignored fuel client [] error = refl
check_error-ignored fuel client (item ∷ ignored) error = elim (Bool-cases (is_listed error item)) [
  | inl l ↦ rw l
  | inr l ↦ rw l (check_error-ignored fuel client ignored error)
]

-- Without mysql-dry-run, and where the m-th attempt to connect again is the first to succeed or to
-- find the error set, a query always ends, with more fuel than m; it is sent once, and its result
-- is no error for the number 0; a failure for an error that no item of the list fits; for one that
-- an item fits, a restart of the transaction, or, where the connection is lost, the result of that
-- attempt.
pub query-verdict :
    (client : Client) (m : ℕ) (fuel : ℕ) (o : Options) (text : Chars) (sent : List Command)
    → EndsAt client m
    → m < fuel
    → o.dry_run ≡ false
    → mysql_drv_query fuel client o text sent ≡ (
      some (verdict client m o.ignored_errors (client.answer sent (queries text))),
      sent ++ queries text ∷ [],
    )
unfolding mysql_drv_query
query-verdict client m fuel o text sent e l d = ground (
  arith,
  check_error-ignored fuel client o.ignored_errors (client.answer sent (queries text)),
  reconnect-at client m e fuel 0 (omega arith) (omega arith),
)
