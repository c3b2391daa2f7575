-- ===== src/Db/Reports.antt =====
-- The reports of the counters (db_print_stats, db_reset_stats). A report is given as the numbers that
-- it prints before they are divided by the seconds that have passed.
pub mod Deltas
use my_sqltutorials.Prelude.{
  ℕ, zero, suc, ◌+◌, ◌-◌, ◌*◌, ◌/◌, ◌%◌, ◌^◌, ◌≤◌, ◌<◌, ◌≡◌, ◌≢◌, ◌↔◌, ◌⊎◌, inl, inr, refl, ap, sym,
  ◌∙◌, arith, Bool, true, false, not, List, [], ◌∷◌, ◌++◌, map, ltb, leb, ◌==◌, ◌&&◌, ◌||◌,
  if◌then◌else◌, Bool-cases, length, get_elem?, set, take, drop, replicate, length-append,
  get_elem?-set_ne, get_elem?-set_self, foldr, Chars,
}
use my_sqltutorials.Prelude.Words.{u64_mod, add64, sub64}
use my_sqltutorials.Db.{ThreadStat, sum_stats, reset_stats}

-- last_transactions and the like
pub record Last : Type 0 where
  pub last_transactions : ℕ
  pub last_read_ops : ℕ
  pub last_write_ops : ℕ
  pub last_errors : ℕ
  pub last_reconnects : ℕ

-- The counters that intermediate reports use.
abbrev pub last_of : ThreadStat → Last
last_of t = record {
  last_transactions = t.transactions;
  last_read_ops = t.read_ops;
  last_write_ops = t.write_ops;
  last_errors = t.errors;
  last_reconnects = t.reconnects;
}

-- What an intermediate report prints, for the sums of the counters.
unfoldable pub since : ThreadStat → Last → Last
since t l = record {
  last_transactions = sub64 t.transactions l.last_transactions;
  last_read_ops = sub64 t.read_ops l.last_read_ops;
  last_write_ops = sub64 t.write_ops l.last_write_ops;
  last_errors = sub64 t.errors l.last_errors;
  last_reconnects = sub64 t.reconnects l.last_reconnects;
}

-- The numbers printed, and the state behind the report.
unfoldable pub print_intermediate : List ThreadStat → Last → Last × Last
print_intermediate stats l = (since (sum_stats stats) l, last_of (sum_stats stats))

-- db_reset_stats, which leaves one variable alone.
unfoldable pub reset_last : Last → Last
reset_last l = record l {
  last_transactions = 0;
  last_read_ops = 0;
  last_write_ops = 0;
  last_errors = 0;
}

-- What a cumulative report prints: the queries of each type and in all, the transactions, the read
-- and write requests, the errors and the reconnects.
pub record Totals : Type 0 where
  pub read : ℕ
  pub write : ℕ
  pub other : ℕ
  pub all : ℕ
  pub transactions : ℕ
  pub requests : ℕ
  pub errors : ℕ
  pub reconnects : ℕ

unfoldable pub totals : ThreadStat → Totals
totals t = record {
  read = t.read_ops;
  write = t.write_ops;
  other = t.other_ops;
  all = add64 (add64 t.read_ops t.write_ops) t.other_ops;
  transactions = t.transactions;
  requests = add64 t.read_ops t.write_ops;
  errors = t.errors;
  reconnects = t.reconnects;
}

unfoldable pub print_cumulative : List ThreadStat → Last → Totals × List ThreadStat × Last
print_cumulative stats l = (totals (sum_stats stats), reset_stats stats, reset_last l)
