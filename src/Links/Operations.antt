-- ===== src/Links/Operations.antt =====
-- Any sequence of additions, deletions and replacements on the pointers does what it does on a list.
use my_sqltutorials.Prelude.{
  ℕ, suc, ◌≡◌, ap, subst, sym, refl, arith, Bool, true, false, List, [], ◌∷◌, ◌++◌, ◌==◌, ◌||◌,
  if◌then◌else◌, length, Bool-cases, inl, inr,
}
use my_sqltutorials.Links.{
  Links, list_init, list_add, list_add_tail, list_delete, list_replace, for_each,
}
use my_sqltutorials.Links.Walks.{Avoids}
use my_sqltutorials.Links.Ring.{
  IsRing, list_init-IsRing, list_add-IsRing, list_add_tail-IsRing, for_each-IsRing,
}
use my_sqltutorials.Links.Anywhere.{delete_any-IsRing, replace_any-IsRing}

pub data ListOp : Type 0 where
  adds adds_tail deletes : (item : ℕ) → ListOp
  replaces : (item old_item : ℕ) → ListOp

unfoldable pub run_op : ℕ → ListOp → Links → Links
run_op head (adds item) h = list_add item head h
run_op head (adds_tail item) h = list_add_tail item head h
run_op head (deletes item) h = list_delete item h
run_op head (replaces item old_item) h = list_replace item old_item h

unfoldable pub run_ops : ℕ → List ListOp → Links → Links
run_ops head [] h = h
run_ops head (op ∷ ops) h = run_ops head ops (run_op head op h)

abbrev pub contains : ℕ → List ℕ → Bool
contains x [] = false
contains x (y ∷ ys) = (y == x) || contains x ys

abbrev pub remove : ℕ → List ℕ → List ℕ
remove x [] = []
remove x (y ∷ ys) = let rest = remove x ys in if y == x then ys else y ∷ rest

abbrev pub exchange : (item x : ℕ) → List ℕ → List ℕ
exchange item x [] = []
exchange item x (y ∷ ys) = let rest = exchange item x ys in if y == x then item ∷ ys else y ∷ rest

-- The same on a list.
abbrev pub list_op : ListOp → List ℕ → List ℕ
list_op (adds item) xs = item ∷ xs
list_op (adds_tail item) xs = xs ++ item ∷ []
list_op (deletes item) xs = remove item xs
list_op (replaces item old_item) xs = exchange item old_item xs

abbrev pub list_ops : List ListOp → List ℕ → List ℕ
list_ops [] xs = xs
list_ops (op ∷ ops) xs = list_ops ops (list_op op xs)

-- An item that comes in is not in the list, and is not its head; one that goes out is in the list.
abbrev pub CanRun : ℕ → ListOp → List ℕ → Type 0
CanRun head (adds item) xs = Avoids item (head ∷ xs)
CanRun head (adds_tail item) xs = Avoids item (head ∷ xs)
CanRun head (deletes item) xs = contains item xs ≡ true
CanRun head (replaces item old_item) xs = Avoids item (head ∷ xs) × (contains old_item xs ≡ true)

abbrev pub AllCanRun : ℕ → List ListOp → List ℕ → Type 0
AllCanRun head [] xs = Unit {0}
AllCanRun head (op ∷ ops) xs = CanRun head op xs × AllCanRun head ops (list_op op xs)

-- A list around one of its items.
record IsAround (x : ℕ) (before after xs : List ℕ) : Type 0 where
  parted : xs ≡ before ++ x ∷ after
  removed : remove x xs ≡ before ++ after
  exchanged : (item : ℕ) → exchange item x xs ≡ before ++ item ∷ after

here-IsAround : (x y : ℕ) (ys : List ℕ) → y == x ≡ true → IsAround x [] ys (y ∷ ys)
here-IsAround x y ys e = record {
  parted = ap (λ z. z ∷ ys) (ground arith);
  removed = rw e refl;
  exchanged = λ item. rw e refl;
}

behind-IsAround :
    (x y : ℕ) (before after ys : List ℕ)
    → y == x ≡ false
    → IsAround x before after ys
    → IsAround x (y ∷ before) after (y ∷ ys)
behind-IsAround x y before after ys e r = record {
  parted = ap (λ l. y ∷ l) r.parted;
  removed = rw e (ap (λ l. y ∷ l) r.removed);
  exchanged = λ item. rw e (ap (λ l. y ∷ l) (r.exchanged item));
}

contains-IsAround :
    (x : ℕ) (xs : List ℕ)
    → contains x xs ≡ true
    → (before : List ℕ) × (after : List ℕ) × IsAround x before after xs
contains-IsAround x [] c = absurd (ground arith)
contains-IsAround x (y ∷ ys) c = elim (Bool-cases (y == x)) [
  | inl e ↦ ([], ys, here-IsAround x y ys e)
  | inr e ↦
      let (before, after, r) = contains-IsAround x ys (ground (arith, c, e)) in
      (y ∷ before, after, behind-IsAround x y before after ys e r)
]

run_op-IsRing :
    (head : ℕ) (op : ListOp) (h : Links) (xs : List ℕ)
    → IsRing h head xs
    → CanRun head op xs
    → IsRing (run_op head op h) head (list_op op xs)
unfolding run_op
run_op-IsRing head (adds item) h xs r c = list_add-IsRing item head h xs r c
run_op-IsRing head (adds_tail item) h xs r c = list_add_tail-IsRing item head h xs r c
run_op-IsRing head (deletes item) h xs r c =
    let (before, after, a) = contains-IsAround item xs c in
    subst (IsRing (list_delete item h) head) (sym a.removed)
      (delete_any-IsRing h head item before after (subst (IsRing h head) a.parted r))
run_op-IsRing head (replaces item old_item) h xs r c =
    let (before, after, a) = contains-IsAround old_item xs c.1 in
    subst (IsRing (list_replace item old_item h) head) (sym (a.exchanged item)) (
      replace_any-IsRing h head item old_item before after
        (subst (λ l. Avoids item (head ∷ l)) a.parted c.0) (subst (IsRing h head) a.parted r))

run_ops-IsRing :
    (head : ℕ) (ops : List ListOp) (h : Links) (xs : List ℕ)
    → IsRing h head xs
    → AllCanRun head ops xs
    → IsRing (run_ops head ops h) head (list_ops ops xs)
unfolding run_ops
run_ops-IsRing head [] h xs r c = r
run_ops-IsRing head (op ∷ ops) h xs r c =
    run_ops-IsRing head ops (run_op head op h) (list_op op xs) (run_op-IsRing head op h xs r c.0)
      c.1

-- From SB_LIST_INIT on, any sequence of SB_LIST_ADD, SB_LIST_ADD_TAIL, SB_LIST_DELETE and
-- SB_LIST_REPLACE, where an item that comes in is not in the list then, and one that is deleted or
-- replaced is, leaves pointers over which SB_LIST_FOR_EACH visits exactly the items of the list that
-- the same operations make, in order.
pub for_each-run_ops :
    (head : ℕ) (ops : List ListOp) (h : Links)
    → AllCanRun head ops []
    → for_each
        (suc (length (list_ops ops [])))
        head
        ((run_ops head ops (list_init head h)).next_p head)
        (run_ops head ops (list_init head h))
      ≡ list_ops ops []
for_each-run_ops head ops h c =
    for_each-IsRing (run_ops head ops (list_init head h)) head (list_ops ops [])
      (run_ops-IsRing head ops (list_init head h) [] (list_init-IsRing head h) c)
