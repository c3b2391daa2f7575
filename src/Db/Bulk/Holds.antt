-- ===== src/Db/Bulk/Holds.antt =====
-- The invariant of a bulk insert: what was sent and what the buffer holds.
use my_sqltutorials.Prelude.{
  ◌+◌, ◌≤◌, ◌≡◌, ◌≢◌, inl, inr, refl, ap, sym, ap₂, subst, ◌∙◌, arith, Bool, true, false, List, [],
  ◌∷◌, ◌++◌, ◌==◌, if◌then◌else◌, length, append_assoc, append_nil, take, length-append, Chars,
}
use my_sqltutorials.Db.{Driver, Conn, db_query}
use my_sqltutorials.Db.Bulk.{packet_size, commit_query, commit_rows, bulk_do_insert}
use my_sqltutorials.Db.Bulk.Batches.{
  Item, batch, commit, join, render_all, rows_of, AllFit, Accepts, render-append, fit-append,
}
use my_sqltutorials.Db.Bulk.Sends.{query-Sends, commit-Sends}

-- `items` have been sent since `base`, and the buffer holds the rows `pending`.
pub record Holds (query : Chars) (base : List Chars) (items : List Item) (pending : List Chars)
    (s : Conn) : Type 0 where
  pub has_driver : s.has_driver ≡ true
  pub sent : s.sent ≡ base ++ render_all query items
  pub ready : take s.bulk_ptr s.bulk_buffer ≡ query ++ join pending
  pub text : pending ≢ [] → s.bulk_buffer ≡ query ++ join pending
  pub at : s.bulk_ptr ≡ length query + length (join pending)
  pub orig : s.bulk_ptr_orig ≡ length query
  pub start : take s.bulk_ptr_orig s.bulk_buffer ≡ query
  pub cnt : s.bulk_cnt ≡ length pending
  pub space : s.bulk_ptr + 1 ≤ packet_size
  pub buflen : s.bulk_buflen ≡ packet_size
  pub fit : AllFit query items

pub length_zero : (rows : List Chars) → length rows ≡ 0 → rows ≡ []
length_zero [] e = refl
length_zero (r ∷ rows) e = absurd (omega arith)

module _ (query : Chars) (base : List Chars) where
  sent-more :
      {sent : List Chars} (items more : List Item)
      → sent ≡ base ++ render_all query items
      → sent ++ render_all query more ≡ base ++ render_all query (items ++ more)
  sent-more items more e =
      ap (λ l. l ++ render_all query more) e
      ∙ append_assoc base (render_all query items) (render_all query more)
      ∙ ap (λ l. base ++ l) (sym (render-append query items more))

  -- A connection that has just been flushed.
  flushed-Holds :
      (items more : List Item) (pending : List Chars) (s t : Conn)
      → Holds query base items pending s
      → t.has_driver ≡ true
      → t.bulk_buffer ≡ s.bulk_buffer
      → t.bulk_buflen ≡ s.bulk_buflen
      → t.bulk_ptr_orig ≡ s.bulk_ptr_orig
      → t.bulk_ptr ≡ s.bulk_ptr_orig
      → t.bulk_cnt ≡ 0
      → t.sent ≡ s.sent ++ render_all query more
      → AllFit query more
      → Holds query base (items ++ more) [] t
  flushed-Holds items more pending s t h driver buffer buflen orig ptr cnt sent fits = record {
    has_driver = driver;
    sent = sent ∙ sent-more items more h.sent;
    ready = ap₂ take ptr buffer ∙ h.start ∙ sym (append_nil query);
    text = λ e. absurd (e refl);
    at = omega (arith, h.orig);
    orig = orig ∙ h.orig;
    start = ap₂ take orig buffer ∙ h.start;
    cnt = cnt;
    space = omega (arith, h.orig, h.at, h.space);
    buflen = buflen ∙ h.buflen;
    fit = fit-append query items more h.fit fits;
  }

  module _ (d : Driver) (accepts : Accepts d) where
    do-commit :
        (is_last : Bool) (s : Conn)
        → s.has_driver ≡ true
        → s.bulk_cnt ≢ 0
        → bulk_do_insert d is_last s ≡ commit_rows d is_last (db_query d s.bulk_buffer s).1
    unfolding bulk_do_insert
    do-commit is_last s h k =
        let r = db_query d s.bulk_buffer s in
        let some_rows : (s.bulk_cnt == 0) ≡ false = ground arith in
        ap (λ b. if b then (false, s) else if r.0 then commit_rows d is_last r.1 else (true, r.1))
          some_rows
        ∙ ap (λ b. if b then commit_rows d is_last r.1 else (true, r.1))
            (query-Sends d accepts s.bulk_buffer s h).0

    -- A flush sends the rows that are held, with or without a commit.
    pub flush-Holds :
        (is_last : Bool) (items : List Item) (pending : List Chars) (s : Conn)
        → Holds query base items pending s
        → pending ≢ []
        → ((bulk_do_insert d is_last s).0 ≡ false)
          × ((more : List Item) × Holds query base (items ++ more) [] (bulk_do_insert d is_last s).1
              × (rows_of more ≡ pending))
    flush-Holds is_last items pending s h k =
        let q = query-Sends d accepts s.bulk_buffer s h.has_driver in
        let t = (db_query d s.bulk_buffer s).1 in
        let c = commit-Sends d accepts is_last t q.1.has_driver in
        let u = commit_rows d is_last t in
        let fits : length (query ++ join pending) + 1 ≤ packet_size =
          omega (arith, length-append query (join pending), h.at, h.space) in
        let sent_rows : t.sent ≡ s.sent ++ (query ++ join pending) ∷ [] =
          q.1.sent ∙ ap (λ x. s.sent ++ x ∷ []) (h.text k) in
        let rows_held : s.bulk_cnt ≢ 0 = λ e. k (length_zero pending (omega (arith, h.cnt))) in
        let flushed =
          λ (more : List Item) (sent : u.1.sent ≡ s.sent ++ render_all query more)
              (f : AllFit query more).
            flushed-Holds items more pending s u.1 h c.1 (c.2 ∙ q.1.buffer) (c.3 ∙ q.1.buflen)
              (c.4 ∙ q.1.orig) (c.5 ∙ q.1.orig) c.6 sent f in
        subst
          (λ (r : Bool × Conn).
            (r.0 ≡ false)
            × ((more : List Item) × Holds query base (items ++ more) [] r.1
                × (rows_of more ≡ pending)))
          (sym (do-commit is_last s h.has_driver rows_held))
          (
            c.0,
            elim c.7 [
              | inl e ↦ (
                batch pending ∷ [],
                flushed (batch pending ∷ []) (e ∙ sent_rows) (fits, tt),
                append_nil pending,
              )
              | inr e ↦ (
                batch pending ∷ commit ∷ [],
                flushed (batch pending ∷ commit ∷ [])
                    (e
                      ∙ ap (λ l. l ++ commit_query ∷ []) sent_rows
                      ∙ append_assoc s.sent ((query ++ join pending) ∷ []) (commit_query ∷ []))
                    (fits, (omega arith, tt)),
                append_nil pending,
              )
            ],
          )
