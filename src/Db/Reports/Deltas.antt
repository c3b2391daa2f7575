-- ===== src/Db/Reports/Deltas.antt =====
-- The intermediate reports together.
use my_sqltutorials.Prelude.{◌<◌, List, [], ◌∷◌}
use my_sqltutorials.Prelude.Words.{u64_mod, add64}
use my_sqltutorials.Db.{ThreadStat}
use my_sqltutorials.Db.Reports.{Last, print_intermediate}

abbrev pub plus_last : Last → Last → Last
plus_last l d = record {
  last_transactions = add64 l.last_transactions d.last_transactions;
  last_read_ops = add64 l.last_read_ops d.last_read_ops;
  last_write_ops = add64 l.last_write_ops d.last_write_ops;
  last_errors = add64 l.last_errors d.last_errors;
  last_reconnects = add64 l.last_reconnects d.last_reconnects;
}

-- Intermediate reports, each for the counters of the threads at its time: what they print.
unfoldable pub intermediates : List (List ThreadStat) → Last → List Last
intermediates [] l = []
intermediates (stats ∷ more) l =
    let (printed, l') = print_intermediate stats l in printed ∷ intermediates more l'

abbrev pub add_deltas : Last → List Last → Last
add_deltas l [] = l
add_deltas l (d ∷ ds) = add_deltas (plus_last l d) ds

record AreWords (t : ThreadStat) : Type 0 where
  reads : t.read_ops < u64_mod
  writes : t.write_ops < u64_mod
  commits : t.transactions < u64_mod
  failures : t.errors < u64_mod
  returns : t.reconnects < u64_mod

-- The variables hold words.
abbrev pub LastAreWords : Last → Type 0
LastAreWords l =
    (l.last_transactions < u64_mod)
    × (l.last_read_ops < u64_mod)
    × (l.last_write_ops < u64_mod)
    × (l.last_errors < u64_mod)
    × (l.last_reconnects < u64_mod)
