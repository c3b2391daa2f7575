-- ===== src/Links/Anywhere.antt =====
-- SB_LIST_DELETE and SB_LIST_REPLACE of any item of a list.
use my_sqltutorials.Prelude.{ℕ, ◌≡◌, ◌≢◌, subst, sym, ap, ap₂, ◌∙◌, List, [], ◌∷◌, ◌++◌}
use my_sqltutorials.Links.{Links, put, set_next, set_prev, list_delete, list_replace}
use my_sqltutorials.Links.Walks.{
  Walk, last_of, Avoids, put_other, put_self, set_prev-Walk, set_next-Walk, Avoids-last,
  snoc-Avoids,
}
use my_sqltutorials.Links.Ring.{IsRing, list_delete-IsRing}
use my_sqltutorials.Links.Rotation.{rotated-IsRing}

-- SB_LIST_DELETE of an item leaves the others.
pub delete_any-IsRing :
    (h : Links) (head x : ℕ) (before after : List ℕ)
    → IsRing h head (before ++ x ∷ after)
    → IsRing (list_delete x h) head (before ++ after)
delete_any-IsRing h head x before after r =
    rotated-IsRing h (list_delete x h) x [] (λ l. Unit {0}) (λ a zs g. tt)
      (λ a zs g s. list_delete-IsRing a x h zs s) head before after tt r

-- What SB_LIST_REPLACE writes for an item `x` between `p` and `n`.
replaced :
    (item x p n : ℕ) (h : Links)
    → h.next_p x ≡ n
    → h.prev_p x ≡ p
    → item ≢ n
    → list_replace item x h
      ≡ set_next p item (set_prev n item (set_prev item p (set_next item n h)))
unfolding list_replace
replaced item x p n h e q d =
    let h1 = set_next item (h.next_p x) h in
    let h2 = set_prev item (h.prev_p x) h1 in
    let m : h2.next_p item ≡ n = put_self h.next_p item (h.next_p x) ∙ e in
    let l : put h2.prev_p (h2.next_p item) item item ≡ p =
      ap (λ k. put h2.prev_p k item item) m
      ∙ put_other h2.prev_p n item item d
      ∙ put_self h.prev_p item (h.prev_p x)
      ∙ q in
    ap₂ (λ k j. set_next k item (set_prev j item h2)) l m
    ∙ ap₂ (λ j k. set_next p item (set_prev n item (set_prev item k (set_next item j h)))) e q

replace_first :
    (item x head : ℕ) (h : Links) (xs : List ℕ)
    → Avoids item (head ∷ x ∷ xs)
    → IsRing h head (x ∷ xs)
    → IsRing (list_replace item x h) head (item ∷ xs)
replace_first item x head h [] n r =
    let h1 = set_next item head h in
    let h2 = set_prev item head h1 in
    let h3 = set_prev head item h2 in
    subst (λ k. IsRing k head (item ∷ []))
      (sym (replaced item x head head h r.forth r.walk.1 (λ i. n.0 (sym i))))
      (record {
        walk = (
          put_self h3.next_p head item,
          put_other h2.prev_p head item item (λ i. n.0 (sym i)) ∙ put_self h.prev_p item head,
          tt,
        );
        forth = put_other h3.next_p head item item (λ i. n.0 (sym i)) ∙ put_self h.next_p item head;
        back = put_self h2.prev_p head item;
        distinct = (((λ i. n.0 (sym i)), tt), (tt, tt));
      })
replace_first item x head h (y ∷ ys) n r =
    let h1 = set_next item y h in
    let h2 = set_prev item head h1 in
    let h3 = set_prev y item h2 in
    let w1 : Walk h1 y ys = set_next-Walk h y ys item y n.1.1 r.walk.2.2 in
    let w2 : Walk h2 y ys = set_prev-Walk h1 y ys item head n.1.1.1 w1 in
    let w3 : Walk h3 y ys = set_prev-Walk h2 y ys y item r.distinct.1.1.0 w2 in
    subst (λ k. IsRing k head (item ∷ y ∷ ys))
      (sym (replaced item x head y h r.walk.2.0 r.walk.1 (λ i. n.1.1.0 (sym i))))
      (record {
        walk = (
          put_self h3.next_p head item,
          put_other h2.prev_p y item item (λ i. n.1.1.0 (sym i)) ∙ put_self h.prev_p item head,
          (
            put_other h3.next_p head item item (λ i. n.0 (sym i)) ∙ put_self h.next_p item y,
            put_self h2.prev_p y item,
            set_next-Walk h3 y ys head item r.distinct.0.1 w3,
          ),
        );
        forth =
            put_other h3.next_p head item (last_of y ys) (Avoids-last head y ys r.distinct.0.1)
            ∙ put_other h.next_p item y (last_of y ys) (Avoids-last item y ys n.1.1)
            ∙ r.forth;
        back =
            put_other h2.prev_p y item head (λ i. r.distinct.0.1.0 (sym i))
            ∙ put_other h.prev_p item head head n.0
            ∙ r.back;
        distinct = (((λ i. n.0 (sym i)), r.distinct.0.1), (n.1.1, r.distinct.1.1));
      })

-- SB_LIST_REPLACE puts an item that is not in the list in the place of one that is.
pub replace_any-IsRing :
    (h : Links) (head item x : ℕ) (before after : List ℕ)
    → Avoids item (head ∷ before ++ x ∷ after)
    → IsRing h head (before ++ x ∷ after)
    → IsRing (list_replace item x h) head (before ++ item ∷ after)
replace_any-IsRing h head item x before after n r =
    rotated-IsRing h (list_replace item x h) x (item ∷ []) (Avoids item)
      (λ a zs g. snoc-Avoids item a zs g.1 g.0) (λ a zs g s. replace_first item x a h zs g s) head
      before after n r
