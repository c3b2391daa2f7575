-- ===== src/Links/Walks.antt =====
-- Items that follow each other, and what single writes do to their links.
use my_sqltutorials.Prelude.{ℕ, ◌≡◌, ◌≢◌, refl, sym, ◌∙◌, arith, List, [], ◌∷◌, ◌++◌}
use my_sqltutorials.Links.{Links, put, set_next, set_prev}

-- The items of `xs` follow `a`, each linked with the one before.
abbrev pub Walk : Links → ℕ → List ℕ → Type 0
Walk h a [] = Unit {0}
Walk h a (x ∷ xs) = (h.next_p a ≡ x) × (h.prev_p x ≡ a) × Walk h x xs

abbrev pub last_of : ℕ → List ℕ → ℕ
last_of a [] = a
last_of a (x ∷ xs) = last_of x xs

-- `y` is not among the items.
abbrev pub Avoids : ℕ → List ℕ → Type 0
Avoids y [] = Unit {0}
Avoids y (x ∷ xs) = (x ≢ y) × Avoids y xs

abbrev pub Distinct : List ℕ → Type 0
Distinct [] = Unit {0}
Distinct (x ∷ xs) = Avoids x xs × Distinct xs

pub put_other : (f : ℕ → ℕ) (a v x : ℕ) → x ≢ a → put f a v x ≡ f x
put_other f a v x h = ground arith

pub put_self : (f : ℕ → ℕ) (a v : ℕ) → put f a v a ≡ v
put_self f a v = ground arith

-- Writes to the previous item of one that is not among `xs`, and to the next of one that is not
-- among those that `xs` follow, leave the links alone.
pub set_prev-Walk :
    (h : Links) (a : ℕ) (xs : List ℕ) (y v : ℕ)
    → Avoids y xs
    → Walk h a xs
    → Walk (set_prev y v h) a xs
set_prev-Walk h a [] y v n w = tt
set_prev-Walk h a (x ∷ xs) y v n w =
    (w.0, put_other h.prev_p y v x n.0 ∙ w.1, set_prev-Walk h x xs y v n.1 w.2)

pub set_next-Walk :
    (h : Links) (a : ℕ) (xs : List ℕ) (y v : ℕ)
    → Avoids y (a ∷ xs)
    → Walk h a xs
    → Walk (set_next y v h) a xs
set_next-Walk h a [] y v n w = tt
set_next-Walk h a (x ∷ xs) y v n w =
    (put_other h.next_p y v a n.0 ∙ w.0, w.1, set_next-Walk h x xs y v n.1 w.2)

-- The next item of the last is not among the links.
pub set_last-Walk :
    (h : Links) (a : ℕ) (xs : List ℕ) (v : ℕ)
    → Distinct (a ∷ xs)
    → Walk h a xs
    → Walk (set_next (last_of a xs) v h) a xs
set_last-Walk h a [] v d w = tt
set_last-Walk h a (x ∷ xs) v d w = (
  put_other h.next_p (last_of x xs) v a (differs a x xs d.0) ∙ w.0,
  w.1,
  set_last-Walk h x xs v d.1 w.2,
)
  where
    differs : (a x : ℕ) (xs : List ℕ) → Avoids a (x ∷ xs) → a ≢ last_of x xs
    differs a x [] n = λ e. n.0 (sym e)
    differs a x (y ∷ ys) n = differs a y ys n.1

pub snoc-Walk :
    (h : Links) (a : ℕ) (xs : List ℕ) (y : ℕ)
    → Walk h a xs
    → h.next_p (last_of a xs) ≡ y
    → h.prev_p y ≡ last_of a xs
    → Walk h a (xs ++ y ∷ [])
snoc-Walk h a [] y w e p = (e, p, tt)
snoc-Walk h a (x ∷ xs) y w e p = (w.0, w.1, snoc-Walk h x xs y w.2 e p)

pub last_of-append : (a : ℕ) (xs : List ℕ) (y : ℕ) → last_of a (xs ++ y ∷ []) ≡ y
last_of-append a [] y = refl
last_of-append a (x ∷ xs) y = last_of-append x xs y

pub Avoids-last : (y a : ℕ) (xs : List ℕ) → Avoids y (a ∷ xs) → last_of a xs ≢ y
Avoids-last y a [] n = n.0
Avoids-last y a (x ∷ xs) n = Avoids-last y x xs n.1

pub snoc-Avoids : (y z : ℕ) (xs : List ℕ) → Avoids y xs → z ≢ y → Avoids y (xs ++ z ∷ [])
snoc-Avoids y z [] n d = (d, tt)
snoc-Avoids y z (x ∷ xs) n d = (n.0, snoc-Avoids y z xs n.1 d)

pub snoc-Distinct : (y : ℕ) (xs : List ℕ) → Avoids y xs → Distinct xs → Distinct (xs ++ y ∷ [])
snoc-Distinct y [] n d = (tt, tt)
snoc-Distinct y (x ∷ xs) n d =
    (snoc-Avoids x y xs d.0 (λ e. n.0 (sym e)), snoc-Distinct y xs n.1 d.1)
