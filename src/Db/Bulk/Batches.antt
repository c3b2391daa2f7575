-- ===== src/Db/Bulk/Batches.antt =====
-- The rows and queries of a bulk insert as lists.
use my_sqltutorials.Prelude.{
  ◌+◌, ◌≤◌, ◌≡◌, refl, ap, sym, ◌∙◌, arith, List, [], ◌∷◌, ◌++◌, length, append_assoc, take,
  length-append, Chars,
}
use my_sqltutorials.Db.{DbError, Driver}
use my_sqltutorials.Db.Bulk.{packet_size, commit_query}

-- The rows of a query, with commas.
abbrev pub join : List Chars → Chars
join [] = []
join (r ∷ []) = r
join (r ∷ q ∷ rows) = r ++ 44 ∷ join (q ∷ rows)

-- What is sent: the rows of an insert, or a commit.
pub data Item : Type 0 where
  batch : List Chars → Item
  commit : Item

abbrev pub render : Chars → Item → Chars
render query (batch rows) = query ++ join rows
render query commit = commit_query

abbrev pub render_all : Chars → List Item → List Chars
render_all query [] = []
render_all query (i ∷ items) = render query i ∷ render_all query items

abbrev pub rows_of : List Item → List Chars
rows_of [] = []
rows_of (batch rows ∷ items) = rows ++ rows_of items
rows_of (commit ∷ items) = rows_of items

-- Every query, with its terminating zero, fits into the buffer.
abbrev pub AllFit : Chars → List Item → Type 0
AllFit query [] = Unit {0}
AllFit query (i ∷ items) = (length (render query i) + 1 ≤ packet_size) × AllFit query items

-- The driver accepts every query.
abbrev pub Accepts : Driver → Type 0
Accepts d = (sent : List Chars) (query : Chars) → d.query sent query ≡ DbError.none

pub join-length : (rows : List Chars) → length rows ≤ length (join rows) + 1
join-length [] = omega arith
join-length (r ∷ []) = omega arith
join-length (r ∷ q ∷ rows) =
    omega (arith, join-length (q ∷ rows), length-append r (44 ∷ join (q ∷ rows)))

pub join-snoc :
    (q : Chars) (rows : List Chars) (r : Chars)
    → join ((q ∷ rows) ++ r ∷ []) ≡ join (q ∷ rows) ++ 44 ∷ r
join-snoc q [] r = refl
join-snoc q (p ∷ rows) r =
    ap (λ x. q ++ 44 ∷ x) (join-snoc p rows r)
    ∙ sym (append_assoc q (44 ∷ join (p ∷ rows)) (44 ∷ r))

pub take-all : (xs ys : Chars) → take (length xs) (xs ++ ys) ≡ xs
take-all [] ys = refl
take-all (x ∷ xs) ys = ap (λ zs. x ∷ zs) (take-all xs ys)

pub render-append :
    (query : Chars) (items more : List Item)
    → render_all query (items ++ more) ≡ render_all query items ++ render_all query more
render-append query [] more = refl
render-append query (i ∷ items) more = ap (λ l. render query i ∷ l) (render-append query items more)

pub fit-append :
    (query : Chars) (items more : List Item)
    → AllFit query items
    → AllFit query more
    → AllFit query (items ++ more)
fit-append query [] more h k = k
fit-append query (i ∷ items) more h k = (h.0, fit-append query items more h.1 k)

pub rows-append : (items more : List Item) → rows_of (items ++ more) ≡ rows_of items ++ rows_of more
rows-append [] more = refl
rows-append (batch rows ∷ items) more =
    ap (λ l. rows ++ l) (rows-append items more)
    ∙ sym (append_assoc rows (rows_of items) (rows_of more))
rows-append (commit ∷ items) more = rows-append items more
