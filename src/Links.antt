-- ===== src/Links.antt =====
-- sysbench-0.5/sysbench/sb_list.h: circular lists of items with a pointer in each direction. An item is
-- a number, and the pointers of all items are two functions.
pub mod Walks
pub mod Ring
pub mod Rotation
pub mod Anywhere
pub mod Operations
mod Tests
use my_sqltutorials.Prelude.{
  ℕ, zero, suc, ◌+◌, ◌-◌, ◌*◌, ◌/◌, ◌%◌, ◌^◌, ◌≤◌, ◌<◌, ◌≡◌, ◌≢◌, ◌↔◌, ◌⊎◌, inl, inr, refl, ap, sym,
  ◌∙◌, arith, Bool, true, false, not, Option, none, some, List, [], ◌∷◌, ◌++◌, map, ltb, leb, ◌==◌,
  ◌&&◌, ◌||◌, if◌then◌else◌, Bool-cases, length, get_elem?, set, take, drop, replicate,
  length-append, get_elem?-set_ne, get_elem?-set_self, foldr, Chars,
}

-- The fields of every sb_list_item_t.
pub record Links : Type 0 where
  pub next_p : ℕ → ℕ
  pub prev_p : ℕ → ℕ

abbrev pub put : (ℕ → ℕ) → ℕ → ℕ → ℕ → ℕ
put f a v x = if a == x then v else f x

abbrev pub set_next : ℕ → ℕ → Links → Links
set_next a v h = record h { next_p = put h.next_p a v }

abbrev pub set_prev : ℕ → ℕ → Links → Links
set_prev a v h = record h { prev_p = put h.prev_p a v }

-- SB_LIST_INIT
unfoldable pub list_init : ℕ → Links → Links
list_init head h = set_prev head head (set_next head head h)

-- SB_LIST_ADD
unfoldable pub list_add : (item head : ℕ) → Links → Links
list_add item head h =
    let h1 = set_next item (h.next_p head) h in
    let h2 = set_prev item head h1 in
    let h3 = set_next head item h2 in set_prev (h3.next_p item) item h3

-- SB_LIST_ADD_TAIL
unfoldable pub list_add_tail : (item head : ℕ) → Links → Links
list_add_tail item head h =
    let h1 = set_prev item (h.prev_p head) h in
    let h2 = set_next item head h1 in
    let h3 = set_prev head item h2 in set_next (h3.prev_p item) item h3

-- SB_LIST_DELETE
unfoldable pub list_delete : (old_item : ℕ) → Links → Links
list_delete old_item h =
    let h1 = set_prev (h.next_p old_item) (h.prev_p old_item) h in
    set_next (h1.prev_p old_item) (h1.next_p old_item) h1

-- SB_LIST_REPLACE
unfoldable pub list_replace : (item old_item : ℕ) → Links → Links
list_replace item old_item h =
    let h1 = set_next item (h.next_p old_item) h in
    let h2 = set_prev item (h1.prev_p old_item) h1 in
    let h3 = set_prev (h2.next_p item) item h2 in set_next (h3.prev_p item) item h3

unfoldable pub list_is_empty : ℕ → Links → Bool
list_is_empty head h = h.next_p head == head

-- SB_LIST_FOR_EACH from the item `pos` on, on fuel: the items visited.
unfoldable pub for_each : (fuel : ℕ) (head pos : ℕ) → Links → List ℕ
for_each zero head pos h = []
for_each (suc fuel) head pos h =
    let rest = for_each fuel head (h.next_p pos) h in if pos == head then [] else pos ∷ rest
