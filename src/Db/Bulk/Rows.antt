-- ===== src/Db/Bulk/Rows.antt =====
-- A bulk insert sends every row once, in order.
use my_sqltutorials.Prelude.{
  ◌+◌, ◌≤◌, ◌≡◌, ◌≢◌, inl, inr, refl, ap, sym, subst, ◌∙◌, arith, Bool, true, false, not, List, [],
  ◌∷◌, ◌++◌, ltb, ◌==◌, ◌||◌, if◌then◌else◌, Bool-cases, length, append_assoc, append_nil, take,
  Chars,
}
use my_sqltutorials.Db.{Driver, Conn}
use my_sqltutorials.Db.Bulk.{
  Next, overflow, result, packet_size, bulk_insert_init, bulk_do_insert, bulk_insert_done,
  insert_all,
}
use my_sqltutorials.Db.Bulk.Batches.{Item, render_all, rows_of, AllFit, Accepts, take-all}
use my_sqltutorials.Db.Bulk.Holds.{length_zero}
use my_sqltutorials.Db.Bulk.Loads.{Loaded, flushed, next-Loaded}

abbrev pub RowsFit : Chars → List Chars → Type 0
RowsFit query [] = Unit {0}
RowsFit query (r ∷ rows) = (length query + length r + 1 ≤ packet_size) × RowsFit query rows

init-Loaded :
    (d : Driver) (query : Chars) (s : Conn)
    → s.has_driver ≡ true
    → d.describe_fails ≡ false
    → length query + 1 ≤ packet_size
    → Loaded query s.sent [] (bulk_insert_init d query s).1
unfolding bulk_insert_init
init-Loaded d query s h k l =
    let fits : (not s.has_driver || d.describe_fails || ltb packet_size (length query + 1))
        ≡ false =
      ground arith in
    let t = record s {
      bulk_buflen = packet_size;
      bulk_supported = d.multi_rows_insert;
      bulk_commit_max = if d.needs_commit then 1000 else 0;
      bulk_commit_cnt = 0;
      bulk_buffer = query;
      bulk_ptr = length query;
      bulk_ptr_orig = length query;
      bulk_cnt = 0;
    } in
    let whole : take (length query) query ≡ query =
      ap (take (length query)) (sym (append_nil query)) ∙ take-all query [] in
    let held : Loaded query s.sent [] t = record {
      items = [];
      pending = [];
      holds = record {
        has_driver = h;
        sent = sym (append_nil s.sent);
        ready = whole ∙ sym (append_nil query);
        text = λ e. absurd (e refl);
        at = omega arith;
        orig = refl;
        start = whole;
        cnt = refl;
        space = l;
        buflen = refl;
        fit = tt;
      };
      all_rows = refl;
    } in
    subst (λ (r : Bool × Conn). Loaded query s.sent [] r.1)
      (sym (ap (λ b. if b then (true, s) else (false, t)) fits)) held

done_idle : (d : Driver) (s : Conn) → s.bulk_cnt ≡ 0 → (bulk_insert_done d s).sent ≡ s.sent
unfolding bulk_insert_done bulk_do_insert
done_idle d s e = ground arith

module _ (query : Chars) (base : List Chars) (d : Driver) (accepts : Accepts d) where
  insert_all-Loaded :
      (given rows : List Chars) (s : Conn)
      → Loaded query base given s
      → RowsFit query rows
      → (t : Conn) × (insert_all d rows s ≡ result false t) × Loaded query base (given ++ rows) t
  unfolding insert_all
  insert_all-Loaded given [] s l f =
      (s, refl, subst (λ (g : List Chars). Loaded query base g s) (sym (append_nil given)) l)
  insert_all-Loaded given (r ∷ rows) s l f =
      let (t, e, m) = next-Loaded query base d accepts given r s l f.0 in
      let (u, e', n) = insert_all-Loaded (given ++ r ∷ []) rows t m f.1 in
      (
        u,
        ap
              (λ (x : Next). elim x [
                | overflow ↦ overflow
                | result true v ↦ result true v
                | result false v ↦ insert_all d rows v
              ])
              e
            ∙ e',
        subst (λ (g : List Chars). Loaded query base g u) (append_assoc given (r ∷ []) rows) n,
      )

  done-Loaded :
      (given : List Chars) (s : Conn)
      → Loaded query base given s
      → (items : List Item) × ((bulk_insert_done d s).sent ≡ base ++ render_all query items)
        × (rows_of items ≡ given)
        × AllFit query items
  unfolding bulk_insert_done
  done-Loaded given s l = elim (Bool-cases (s.bulk_cnt == 0)) [
    | inl none_held ↦
        (let empty : l.pending ≡ [] = length_zero l.pending (ground (arith, l.holds.cnt)) in
          (
            l.items,
            done_idle d s (ground arith) ∙ l.holds.sent,
            sym (append_nil (rows_of l.items))
                ∙ ap (λ p. rows_of l.items ++ p) (sym empty)
                ∙ l.all_rows,
            l.holds.fit,
          ))
    | inr some_held ↦
        (let held : l.pending ≢ [] = λ e. absurd (ground (arith, ap length e, l.holds.cnt)) in
          let (e, (m, empty)) = flushed query base d accepts true given s l held in
          (
            m.items,
            m.holds.sent,
            sym (append_nil (rows_of m.items))
                ∙ ap (λ p. rows_of m.items ++ p) (sym empty)
                ∙ m.all_rows,
            m.holds.fit,
          ))
  ]

-- With a driver that accepts every query and rows that each fit into the buffer with the query, no
-- row fails and nothing is written behind the buffer. What is sent is a series of inserts (the query
-- and its rows with commas) and commits; each fits into the buffer, and the rows of the inserts are
-- the rows that were added, each once and in order.
pub bulk_insert_sends_rows :
    (d : Driver) (query : Chars) (rows : List Chars) (s : Conn)
    → Accepts d
    → s.has_driver ≡ true
    → d.describe_fails ≡ false
    → length query + 1 ≤ packet_size
    → RowsFit query rows
    → (t : Conn) × (insert_all d rows (bulk_insert_init d query s).1 ≡ result false t)
      × ((items : List Item) × ((bulk_insert_done d t).sent ≡ s.sent ++ render_all query items)
          × (rows_of items ≡ rows)
          × AllFit query items)
bulk_insert_sends_rows d query rows s a h k l f =
    let (t, e, m) =
      insert_all-Loaded query s.sent d a [] rows (bulk_insert_init d query s).1
        (init-Loaded d query s h k l) f in
    (t, e, done-Loaded query s.sent d a rows t m)
