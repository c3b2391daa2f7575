-- ===== src/Db/Bulk/Loads.antt =====
-- Rows that are put into the buffer and sent.
use my_sqltutorials.Prelude.{
  ◌+◌, ◌≤◌, ◌≡◌, ◌≢◌, inl, inr, refl, ap, sym, ap₂, ◌∙◌, arith, Bool, true, false, List, [], ◌∷◌,
  ◌++◌, ltb, ◌==◌, if◌then◌else◌, Bool-cases, length, append_assoc, append_nil, take, length-append,
  Chars,
}
use my_sqltutorials.Prelude.Words.{add32}
use my_sqltutorials.Db.{Driver, Conn}
use my_sqltutorials.Db.Bulk.{
  result, packet_size, bulk_do_insert, append_row, bulk_insert_next, comma, needed, separated,
}
use my_sqltutorials.Db.Bulk.Batches.{
  Item, join, rows_of, Accepts, join-length, join-snoc, take-all, rows-append,
}
use my_sqltutorials.Db.Bulk.Holds.{Holds, flush-Holds}

separated_lem :
    (query r : Chars) (pending : List Chars) (s : Conn)
    → take s.bulk_ptr s.bulk_buffer ≡ query ++ join pending
    → s.bulk_cnt ≡ length pending
    → take s.bulk_ptr s.bulk_buffer ++ separated r s ≡ query ++ join (pending ++ r ∷ [])
separated_lem query r [] s e c =
    let none_held : (s.bulk_cnt == 0) ≡ true = ground arith in
    ap₂ (λ x b. x ++ (if b then r else 44 ∷ r)) e none_held ∙ ap (λ x. x ++ r) (append_nil query)
separated_lem query r (p ∷ pending) s e c =
    let some_held : (s.bulk_cnt == 0) ≡ false = ground arith in
    ap₂ (λ x b. x ++ (if b then r else 44 ∷ r)) e some_held
    ∙ append_assoc query (join (p ∷ pending)) (44 ∷ r)
    ∙ ap (λ x. query ++ x) (sym (join-snoc p pending r))

separated-length : (r : Chars) (s : Conn) → length (separated r s) ≡ length r + comma s
separated-length r s = ground arith

module _ (query : Chars) (base : List Chars) where
  append-Holds :
      (items : List Item) (pending : List Chars) (r : Chars) (s : Conn)
      → Holds query base items pending s
      → s.bulk_ptr + comma s + length r + 1 ≤ packet_size
      → (t : Conn) × (append_row r s ≡ result false t)
        × Holds query base items (pending ++ r ∷ []) t
  unfolding append_row
  append-Holds items pending r s h l =
      let body = take s.bulk_ptr s.bulk_buffer ++ separated r s in
      let held : body ≡ query ++ join (pending ++ r ∷ []) =
        separated_lem query r pending s h.ready h.cnt in
      let held_length : length body ≡ s.bulk_ptr + length r + comma s = omega (
        arith,
        ap length h.ready,
        length-append query (join pending),
        length-append (take s.bulk_ptr s.bulk_buffer) (separated r s),
        separated-length r s,
        h.at,
      ) in
      let ptr : add32 s.bulk_ptr (length r + comma s) ≡ length body = omega (arith, held_length) in
      let new_length = length-append query (join (pending ++ r ∷ [])) in
      (
        record s {
          bulk_buffer = body;
          bulk_ptr = add32 s.bulk_ptr (length r + comma s);
          bulk_cnt = add32 s.bulk_cnt 1;
        },
        ground (arith, h.buflen),
        record {
          has_driver = h.has_driver;
          sent = h.sent;
          ready =
              ap (λ n. take n body) ptr
              ∙ ap (take (length body)) (sym (append_nil body))
              ∙ take-all body []
              ∙ held;
          text = λ e. held;
          at = omega (arith, ptr, ap length held, new_length);
          orig = h.orig;
          start = ap₂ take h.orig held ∙ take-all query (join (pending ++ r ∷ []));
          cnt =
              omega
                (arith, h.cnt, length-append pending (r ∷ []), join-length pending, h.at, h.space);
          space = omega (arith, ptr, held_length);
          buflen = h.buflen;
          fit = h.fit;
        },
      )

≢-length : (rows : List Chars) → rows ≢ [] → length rows ≢ 0
≢-length [] h = absurd (h refl)
≢-length (r ∷ rows) h = omega arith

-- The rows `given` are those of the inserts sent since `base` and those held.
pub record Loaded (query : Chars) (base given : List Chars) (s : Conn) : Type 0 where
  pub items : List Item
  pub pending : List Chars
  pub holds : Holds query base items pending s
  pub all_rows : rows_of items ++ pending ≡ given

module _ (query : Chars) (base : List Chars) (d : Driver) (accepts : Accepts d) where
  appended :
      (given : List Chars) (r : Chars) (s : Conn) (l : Loaded query base given s)
      → s.bulk_ptr + comma s + length r + 1 ≤ packet_size
      → (t : Conn) × (append_row r s ≡ result false t) × Loaded query base (given ++ r ∷ []) t
  appended given r s l fits =
      let (t, e, h) = append-Holds query base l.items l.pending r s l.holds fits in
      (
        t,
        e,
        record {
          items = l.items;
          pending = l.pending ++ r ∷ [];
          holds = h;
          all_rows =
              sym (append_assoc (rows_of l.items) l.pending (r ∷ []))
              ∙ ap (λ rs. rs ++ r ∷ []) l.all_rows;
        },
      )

  pub flushed :
      (is_last : Bool) (given : List Chars) (s : Conn) (l : Loaded query base given s)
      → l.pending ≢ []
      → ((bulk_do_insert d is_last s).0 ≡ false)
        × ((m : Loaded query base given (bulk_do_insert d is_last s).1) × (m.pending ≡ []))
  flushed is_last given s l k =
      let (e, (more, h, rows)) =
        flush-Holds query base d accepts is_last l.items l.pending s l.holds k in
      (
        e,
        (
          record {
            items = l.items ++ more;
            pending = [];
            holds = h;
            all_rows =
                append_nil (rows_of (l.items ++ more))
                ∙ rows-append l.items more
                ∙ ap (λ rs. rows_of l.items ++ rs) rows
                ∙ l.all_rows;
          },
          refl,
        ),
      )

  pub next-Loaded :
      (given : List Chars) (r : Chars) (s : Conn)
      → Loaded query base given s
      → length query + length r + 1 ≤ packet_size
      → (t : Conn) × (bulk_insert_next d r s ≡ result false t)
        × Loaded query base (given ++ r ∷ []) t
  unfolding bulk_insert_next
  next-Loaded given r s l fits =
      let h = l.holds in
      let after =
        λ (t : Conn). if (bulk_do_insert d false s).0 then result true t else append_row r t in
      elim (Bool-cases (ltb s.bulk_buflen (needed r s))) [
        | inl full ↦
            (let held : l.pending ≢ [] = λ e.
                absurd (
                  ground
                    (arith, ap (λ p. length (join p)) e, ap length e, h.at, h.cnt, h.buflen)) in
              let some_rows : (s.bulk_cnt == 0) ≡ false =
                ground (arith, ≢-length l.pending held, h.cnt) in
              let (e, (m, empty)) = flushed false given s l held in
              let n = m.holds in
              let (t, e', l') =
                appended given r (bulk_do_insert d false s).1 m
                  (ground (arith, ap (λ p. length (join p)) empty, ap length empty, n.at, n.cnt)) in
              (
                t,
                ap
                      (λ b.
                        if b
                        then (if s.bulk_cnt == 0
                            then result true s
                            else after (bulk_do_insert d false s).1)
                        else append_row r s)
                      full
                    ∙ ap (λ b. if b then result true s else after (bulk_do_insert d false s).1)
                        some_rows
                    ∙ ap
                        (λ b.
                          if b
                          then result true (bulk_do_insert d false s).1
                          else append_row r (bulk_do_insert d false s).1)
                        e
                    ∙ e',
                l',
              ))
        | inr room ↦
            (let (t, e, l') = appended given r s l (ground (arith, h.buflen, h.space)) in
              (
                t,
                ap
                      (λ b.
                        if b
                        then (if s.bulk_cnt == 0
                            then result true s
                            else after (bulk_do_insert d false s).1)
                        else append_row r s)
                      room
                    ∙ e,
                l',
              ))
      ]
