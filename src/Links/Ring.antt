-- ===== src/Links/Ring.antt =====
-- The items linked behind a head, as a list.
use my_sqltutorials.Prelude.{ℕ, suc, ◌≡◌, ◌≢◌, ap, sym, ◌∙◌, arith, List, [], ◌∷◌, ◌++◌, length}
use my_sqltutorials.Prelude.{subst, ap₂}
use my_sqltutorials.Links.{
  Links, put, set_next, set_prev, list_init, list_add, list_add_tail, list_delete, for_each,
}
use my_sqltutorials.Links.Walks.{
  Walk, last_of, Avoids, Distinct, put_other, put_self, set_prev-Walk, set_next-Walk, set_last-Walk,
  snoc-Walk, last_of-append, Avoids-last, snoc-Distinct,
}

-- The list behind `head` has the items `xs`, in order, all different.
pub record IsRing (h : Links) (head : ℕ) (xs : List ℕ) : Type 0 where
  pub walk : Walk h head xs
  pub forth : h.next_p (last_of head xs) ≡ head
  pub back : h.prev_p head ≡ last_of head xs
  pub distinct : Distinct (head ∷ xs)

-- What SB_LIST_INIT makes is the empty list.
pub list_init-IsRing : (head : ℕ) (h : Links) → IsRing (list_init head h) head []
unfolding list_init
list_init-IsRing head h = record {
  walk = tt;
  forth = put_self h.next_p head head;
  back = put_self h.prev_p head head;
  distinct = (tt, tt);
}

-- SB_LIST_ADD_TAIL puts an item that is not in the list behind the last.
pub list_add_tail-IsRing :
    (item head : ℕ) (h : Links) (xs : List ℕ)
    → IsRing h head xs
    → Avoids item (head ∷ xs)
    → IsRing (list_add_tail item head h) head (xs ++ item ∷ [])
unfolding list_add_tail
list_add_tail-IsRing item head h xs r n =
    let l = last_of head xs in
    let h2 = set_next item head (set_prev item (h.prev_p head) h) in
    let h3 = set_prev head item h2 in
    let e : h3.prev_p item ≡ l =
      put_other h2.prev_p head item item (λ i. n.0 (sym i))
      ∙ put_self h.prev_p item (h.prev_p head)
      ∙ r.back in
    let w2 : Walk h2 head xs =
      set_next-Walk (set_prev item (h.prev_p head) h) head xs item head n
        (set_prev-Walk h head xs item (h.prev_p head) n.1 r.walk) in
    let w3 : Walk h3 head xs = set_prev-Walk h2 head xs head item r.distinct.0 w2 in
    let w4 : Walk (set_next l item h3) head xs = set_last-Walk h3 head xs item r.distinct w3 in
    let new_last : last_of head (xs ++ item ∷ []) ≡ item = last_of-append head xs item in
    subst (λ k. IsRing (set_next k item h3) head (xs ++ item ∷ [])) (sym e)
      (record {
        walk = snoc-Walk (set_next l item h3) head xs item w4 (put_self h3.next_p l item) e;
        forth =
            ap (put h3.next_p l item) new_last
            ∙ put_other h3.next_p l item item (λ i. Avoids-last item head xs n (sym i))
            ∙ put_self h.next_p item head;
        back = put_self h2.prev_p head item ∙ sym new_last;
        distinct = snoc-Distinct item (head ∷ xs) n r.distinct;
      })

-- The item behind the one that SB_LIST_ADD has linked.
added_next :
    (item head : ℕ) (h : Links)
    → head ≢ item
    → (set_next head item (set_prev item head (set_next item (h.next_p head) h))).next_p item
      ≡ h.next_p head
added_next item head h d =
    put_other (put h.next_p item (h.next_p head)) head item item (λ i. d (sym i))
    ∙ put_self h.next_p item (h.next_p head)

-- SB_LIST_ADD puts an item that is not in the list before the first.
pub list_add-IsRing :
    (item head : ℕ) (h : Links) (xs : List ℕ)
    → IsRing h head xs
    → Avoids item (head ∷ xs)
    → IsRing (list_add item head h) head (item ∷ xs)
unfolding list_add
list_add-IsRing item head h [] r n =
    let h2 = set_prev item head (set_next item (h.next_p head) h) in
    let h3 = set_next head item h2 in
    let e : h3.next_p item ≡ head = added_next item head h n.0 ∙ r.forth in
    subst (λ k. IsRing (set_prev k item h3) head (item ∷ [])) (sym e)
      (record {
        walk = (
          put_self h2.next_p head item,
          put_other h3.prev_p head item item (λ i. n.0 (sym i)) ∙ put_self h.prev_p item head,
          tt,
        );
        forth = e;
        back = put_self h3.prev_p head item;
        distinct = (((λ i. n.0 (sym i)), tt), (tt, tt));
      })
list_add-IsRing item head h (x ∷ xs) r n =
    let h1 = set_next item (h.next_p head) h in
    let h2 = set_prev item head h1 in
    let h3 = set_next head item h2 in
    let e : h3.next_p item ≡ x = added_next item head h n.0 ∙ r.walk.0 in
    let w2 : Walk h2 x xs =
      set_prev-Walk h1 x xs item head n.1.1
        (set_next-Walk h x xs item (h.next_p head) n.1 r.walk.2) in
    let w3 : Walk h3 x xs = set_next-Walk h2 x xs head item r.distinct.0 w2 in
    subst (λ k. IsRing (set_prev k item h3) head (item ∷ x ∷ xs)) (sym e)
      (record {
        walk = (
          put_self h2.next_p head item,
          put_other h3.prev_p x item item (λ i. n.1.0 (sym i)) ∙ put_self h.prev_p item head,
          (e, put_self h3.prev_p x item, set_prev-Walk h3 x xs x item r.distinct.1.0 w3),
        );
        forth =
            put_other h2.next_p head item (last_of x xs) (Avoids-last head x xs r.distinct.0)
            ∙ put_other h.next_p item (h.next_p head) (last_of x xs) (Avoids-last item x xs n.1)
            ∙ r.forth;
        back =
            put_other h3.prev_p x item head (λ i. r.distinct.0.0 (sym i))
            ∙ put_other h.prev_p item head head n.0
            ∙ r.back;
        distinct = (((λ i. n.0 (sym i)), r.distinct.0), (n.1, r.distinct.1));
      })

-- What SB_LIST_DELETE writes for the first item `x`, which `n` follows.
deleted :
    (head x n : ℕ) (h : Links)
    → h.next_p x ≡ n
    → h.prev_p x ≡ head
    → put h.prev_p n head x ≡ head
    → list_delete x h ≡ set_next head n (set_prev n head h)
unfolding list_delete
deleted head x n h e p q =
    ap₂ (λ k l. set_next (put h.prev_p k l x) k (set_prev k l h)) e p
    ∙ ap (λ l. set_next l n (set_prev n head h)) q

-- SB_LIST_DELETE of the first item of a list leaves the others.
pub list_delete-IsRing :
    (head x : ℕ) (h : Links) (xs : List ℕ)
    → IsRing h head (x ∷ xs)
    → IsRing (list_delete x h) head xs
list_delete-IsRing head x h [] r =
    let e : put h.prev_p head head x ≡ head =
      put_other h.prev_p head head x r.distinct.0.0 ∙ r.walk.1 in
    subst (λ k. IsRing k head []) (sym (deleted head x head h r.forth r.walk.1 e))
      (record {
        walk = tt;
        forth = put_self h.next_p head head;
        back = put_self h.prev_p head head;
        distinct = (tt, tt);
      })
list_delete-IsRing head x h (y ∷ ys) r =
    let e : put h.prev_p y head x ≡ head =
      put_other h.prev_p y head x (λ i. r.distinct.1.0.0 (sym i)) ∙ r.walk.1 in
    let h1 = set_prev y head h in
    subst (λ k. IsRing k head (y ∷ ys)) (sym (deleted head x y h r.walk.2.0 r.walk.1 e))
      (record {
        walk = (
          put_self h.next_p head y,
          put_self h.prev_p y head,
          set_next-Walk h1 y ys head y r.distinct.0.1
              (set_prev-Walk h y ys y head r.distinct.1.1.0 r.walk.2.2),
        );
        forth =
            put_other h.next_p head y (last_of y ys) (Avoids-last head y ys r.distinct.0.1)
            ∙ r.forth;
        back = put_other h.prev_p y head head (λ i. r.distinct.0.1.0 (sym i)) ∙ r.back;
        distinct = (r.distinct.0.1, r.distinct.1.1);
      })

for_each-Walk :
    (h : Links) (head a : ℕ) (xs : List ℕ)
    → Walk h a xs
    → h.next_p (last_of a xs) ≡ head
    → Avoids head xs
    → for_each (suc (length xs)) head (h.next_p a) h ≡ xs
unfolding for_each
for_each-Walk h head a [] w e n = ground arith
for_each-Walk h head a (x ∷ xs) w e n = ground (arith, for_each-Walk h head x xs w.2 e n.1)

-- SB_LIST_FOR_EACH visits the items of a list once, in order, and stops at its head: one round more
-- than there are items is enough.
pub for_each-IsRing :
    (h : Links) (head : ℕ) (xs : List ℕ)
    → IsRing h head xs
    → for_each (suc (length xs)) head (h.next_p head) h ≡ xs
for_each-IsRing h head xs r = for_each-Walk h head head xs r.walk r.forth r.distinct.0
