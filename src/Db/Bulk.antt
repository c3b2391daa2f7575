-- ===== src/Db/Bulk.antt =====
-- db_bulk_insert_init, _next and _done: rows are gathered in one INSERT until the buffer is full.
-- Strings are shorter than 2^32.
pub mod Batches
pub mod Sends
pub mod Holds
pub mod Loads
pub mod Rows
use my_sqltutorials.Prelude.{
  ℕ, zero, suc, ◌+◌, ◌-◌, ◌*◌, ◌/◌, ◌%◌, ◌^◌, ◌≤◌, ◌<◌, ◌≡◌, ◌≢◌, ◌↔◌, ◌⊎◌, inl, inr, refl, ap, sym,
  ◌∙◌, arith, Bool, true, false, not, Option, none, some, List, [], ◌∷◌, ◌++◌, map, ltb, leb, ◌==◌,
  ◌&&◌, ◌||◌, if◌then◌else◌, Bool-cases, length, get_elem?, set, take, drop, replicate,
  length-append, get_elem?-set_ne, get_elem?-set_self, foldr, Chars,
}
use my_sqltutorials.Prelude.Words.{u32_mod, add32}
use my_sqltutorials.Db.{Driver, Conn, db_query}

-- BULK_PACKET_SIZE and ROWS_BEFORE_COMMIT
abbrev pub packet_size : ℕ
packet_size = 524288

abbrev rows_before_commit : ℕ
rows_before_commit = 1000

abbrev pub commit_query : Chars
commit_query = 67 ∷ 79 ∷ 77 ∷ 77 ∷ 73 ∷ 84 ∷ []

-- `overflow` is a write behind the buffer; the flag is the error.
pub data Next : Type 0 where
  overflow : Next
  result : Bool → Conn → Next

unfoldable pub bulk_insert_init : Driver → Chars → Conn → Bool × Conn
bulk_insert_init d query s =
    if not s.has_driver || d.describe_fails || ltb packet_size (length query + 1)
    then (true, s)
    else (
      false,
      record s {
        bulk_buflen = packet_size;
        bulk_supported = d.multi_rows_insert;
        bulk_commit_max = if d.needs_commit then rows_before_commit else 0;
        bulk_commit_cnt = 0;
        bulk_buffer = query;
        bulk_ptr = length query;
        bulk_ptr_orig = length query;
        bulk_cnt = 0;
      },
    )

unfoldable pub rewind : Conn → Conn
rewind s = record s { bulk_ptr = s.bulk_ptr_orig; bulk_cnt = 0 }

-- The COMMIT, if it is due.
unfoldable pub commit_rows : Driver → Bool → Conn → Bool × Conn
commit_rows d is_last s =
    if s.bulk_commit_max == 0
    then (false, rewind s)
    else (let cnt = add32 s.bulk_commit_cnt s.bulk_cnt in
        let s' = record s { bulk_commit_cnt = cnt } in
        if is_last || leb s.bulk_commit_max cnt
        then (let (ok, t) = db_query d commit_query s' in
            if ok then (false, rewind (record t { bulk_commit_cnt = 0 })) else (true, t))
        else (false, rewind s'))

unfoldable pub bulk_do_insert : Driver → Bool → Conn → Bool × Conn
bulk_do_insert d is_last s =
    if s.bulk_cnt == 0
    then (false, s)
    else (let (ok, t) = db_query d s.bulk_buffer s in
        if ok then commit_rows d is_last t else (true, t))

-- The byte for the comma.
abbrev pub comma : Conn → ℕ
comma s = if s.bulk_cnt == 0 then 0 else 1

abbrev pub needed : Chars → Conn → ℕ
needed query s = (s.bulk_ptr + length query + 1 + comma s) % u32_mod

abbrev pub separated : Chars → Conn → Chars
separated query s = if s.bulk_cnt == 0 then query else 44 ∷ query

unfoldable pub append_row : Chars → Conn → Next
append_row query s =
    if ltb s.bulk_buflen (s.bulk_ptr + comma s + length query + 1)
    then overflow
    else result false (record s {
      bulk_buffer = take s.bulk_ptr s.bulk_buffer ++ separated query s;
      bulk_ptr = add32 s.bulk_ptr (length query + comma s);
      bulk_cnt = add32 s.bulk_cnt 1;
    })

unfoldable pub bulk_insert_next : Driver → Chars → Conn → Next
bulk_insert_next d query s =
    if ltb s.bulk_buflen (needed query s)
    then (if s.bulk_cnt == 0
        then result true s
        else (let (err, t) = bulk_do_insert d false s in
            if err then result true t else append_row query t))
    else append_row query s

unfoldable pub bulk_insert_done : Driver → Conn → Conn
bulk_insert_done d s = record (bulk_do_insert d true s).1 { bulk_buffer = [] }

-- A client that adds rows until one fails.
unfoldable pub insert_all : Driver → List Chars → Conn → Next
insert_all d [] s = result false s
insert_all d (r ∷ rows) s = elim (bulk_insert_next d r s) [
  | overflow ↦ overflow
  | result true t ↦ result true t
  | result false t ↦ insert_all d rows t
]
