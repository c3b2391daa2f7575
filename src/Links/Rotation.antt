-- ===== src/Links/Rotation.antt =====
-- The same circle of items seen from another of them.
use my_sqltutorials.Prelude.{ℕ, ◌≡◌, ◌≢◌, subst, sym, ap, ◌∙◌, List, [], ◌∷◌, ◌++◌, append_assoc}
use my_sqltutorials.Links.{Links}
use my_sqltutorials.Links.Walks.{
  Walk, last_of, Avoids, Distinct, last_of-append, snoc-Walk, snoc-Distinct,
}
use my_sqltutorials.Links.Ring.{IsRing}

pub rotate-IsRing :
    (h : Links) (a b : ℕ) (xs : List ℕ) → IsRing h a (b ∷ xs) → IsRing h b (xs ++ a ∷ [])
rotate-IsRing h a b xs r = record {
  walk = snoc-Walk h b xs a r.walk.2 r.forth r.back;
  forth = ap h.next_p (last_of-append b xs a) ∙ r.walk.0;
  back = r.walk.1 ∙ sym (last_of-append b xs a);
  distinct = snoc-Distinct a (b ∷ xs) r.distinct.0 r.distinct.1;
}

unsnoc-Walk :
    (h : Links) (b : ℕ) (xs : List ℕ) (a : ℕ)
    → Walk h b (xs ++ a ∷ [])
    → Walk h b xs × (h.next_p (last_of b xs) ≡ a) × (h.prev_p a ≡ last_of b xs)
unsnoc-Walk h b [] a w = (tt, w.0, w.1)
unsnoc-Walk h b (x ∷ xs) a w = let (v, e, p) = unsnoc-Walk h x xs a w.2 in ((w.0, w.1, v), e, p)

pub unsnoc-Avoids : (y z : ℕ) (xs : List ℕ) → Avoids y (xs ++ z ∷ []) → Avoids y xs × (z ≢ y)
unsnoc-Avoids y z [] n = (tt, n.0)
unsnoc-Avoids y z (x ∷ xs) n = let (m, d) = unsnoc-Avoids y z xs n.1 in ((n.0, m), d)

unsnoc-Distinct : (y : ℕ) (xs : List ℕ) → Distinct (xs ++ y ∷ []) → Avoids y xs × Distinct xs
unsnoc-Distinct y [] d = (tt, tt)
unsnoc-Distinct y (x ∷ xs) d =
    let (n, e) = unsnoc-Distinct y xs d.1 in
    let (m, ne) = unsnoc-Avoids x y xs d.0 in (((λ i. ne (sym i)), n), (m, e))

pub unrotate-IsRing :
    (h : Links) (a b : ℕ) (xs : List ℕ) → IsRing h b (xs ++ a ∷ []) → IsRing h a (b ∷ xs)
unrotate-IsRing h a b xs r =
    let (w, e, p) = unsnoc-Walk h b xs a r.walk in
    record {
      walk =
          (ap h.next_p (sym (last_of-append b xs a)) ∙ r.forth, r.back ∙ last_of-append b xs a, w);
      forth = e;
      back = p;
      distinct = unsnoc-Distinct a (b ∷ xs) r.distinct;
    }

-- What a change of the pointers does to the first item of a list, it does to an item anywhere: the
-- circle is the same from the item before. `Good` is what the change asks of the items.
pub rotated-IsRing :
    (h k : Links) (x : ℕ) (news : List ℕ) (Good : List ℕ → Type 0)
    → ((a : ℕ) (zs : List ℕ) → Good (a ∷ zs) → Good (zs ++ a ∷ []))
    → ((a : ℕ) (zs : List ℕ) → Good (a ∷ x ∷ zs) → IsRing h a (x ∷ zs) → IsRing k a (news ++ zs))
    → (head : ℕ) (before zs : List ℕ) → Good (head ∷ before ++ x ∷ zs)
    → IsRing h head (before ++ x ∷ zs)
    → IsRing k head (before ++ (news ++ zs))
rotated-IsRing h k x news Good turn first head [] zs g r = first head zs g r
rotated-IsRing h k x news Good turn first head (p ∷ before) zs g r =
    let e = append_assoc before (x ∷ zs) (head ∷ []) in
    let e' = append_assoc before (news ++ zs) (head ∷ []) in
    let ih =
      rotated-IsRing h k x news Good turn first p before (zs ++ head ∷ [])
        (subst (λ l. Good (p ∷ l)) e (turn head (p ∷ before ++ x ∷ zs) g))
        (subst (IsRing h p) e (rotate-IsRing h head p (before ++ x ∷ zs) r)) in
    unrotate-IsRing k head p (before ++ (news ++ zs)) (
      subst (IsRing k p) (ap (λ l. before ++ l) (sym (append_assoc news zs (head ∷ []))) ∙ sym e')
        ih)
