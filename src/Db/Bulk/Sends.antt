-- ===== src/Db/Bulk/Sends.antt =====
-- What a flush that the driver accepts changes.
use my_sqltutorials.Prelude.{◌≡◌, ◌⊎◌, arith, Bool, true, false, [], ◌∷◌, ◌++◌, Chars}
use my_sqltutorials.Prelude.Words.{add32}
use my_sqltutorials.Db.{Driver, Conn, settle, db_query}
use my_sqltutorials.Db.Bulk.{commit_query, rewind, commit_rows}
use my_sqltutorials.Db.Bulk.Batches.{Accepts}

-- `t` is `s` after a query was sent.
pub record Sends (query : Chars) (s t : Conn) : Type 0 where
  pub has_driver : t.has_driver ≡ true
  pub sent : t.sent ≡ s.sent ++ query ∷ []
  pub buffer : t.bulk_buffer ≡ s.bulk_buffer
  pub buflen : t.bulk_buflen ≡ s.bulk_buflen
  pub orig : t.bulk_ptr_orig ≡ s.bulk_ptr_orig
  pub cnt : t.bulk_cnt ≡ s.bulk_cnt
  pub max : t.bulk_commit_max ≡ s.bulk_commit_max
  pub commit_cnt : t.bulk_commit_cnt ≡ s.bulk_commit_cnt

module _ (d : Driver) (accepts : Accepts d) where
  pub query-Sends :
      (query : Chars) (s : Conn)
      → s.has_driver ≡ true
      → ((db_query d query s).0 ≡ true) × Sends query s (db_query d query s).1
  unfolding db_query settle
  query-Sends query s h = ground (arith, accepts s.sent query)

  pub commit-Sends :
      (is_last : Bool) (s : Conn)
      → s.has_driver ≡ true
      → let r = commit_rows d is_last s in
        (r.0 ≡ false)
        × (r.1.has_driver ≡ true)
        × (r.1.bulk_buffer ≡ s.bulk_buffer)
        × (r.1.bulk_buflen ≡ s.bulk_buflen)
        × (r.1.bulk_ptr_orig ≡ s.bulk_ptr_orig)
        × (r.1.bulk_ptr ≡ s.bulk_ptr_orig)
        × (r.1.bulk_cnt ≡ 0)
        × ((r.1.sent ≡ s.sent) ⊎ (r.1.sent ≡ s.sent ++ commit_query ∷ []))
  unfolding commit_rows rewind
  commit-Sends is_last s h =
      let q =
        query-Sends commit_query (record s { bulk_commit_cnt = add32 s.bulk_commit_cnt s.bulk_cnt })
          h in
      ground (arith, q.0, q.1.has_driver, q.1.sent, q.1.buffer, q.1.buflen, q.1.orig)
