-- ===== src/Scripts/Stores.antt =====
-- What an execution stores in the parameters, and what the database reads through their pointers.
use my_sqltutorials.Prelude.{
  some_injective, ◌>>=◌, >>=-some, ◌≡◌, refl, ap₂, arith, Bool, true, false, some, List, [], ◌∷◌,
  ◌||◌, subst, Bool-cases, inl, inr,
}
use my_sqltutorials.Prelude.Int.{ℤ}
use my_sqltutorials.Scripts.{LuaValue, Lua, Slot, Param, Bound, Seen, seen_all, set_values, rebind}
use my_sqltutorials.Scripts.Slots.{
  IsChecking, kind, wanted, all_wanted, shape, AllFit, is_longer, any_longer, IsStored, value_lem,
}

-- The parameters after the values `vs` of a table are stored, and the flag of needs_rebind.
pub record AreStored (get : ℤ → LuaValue) (before after : List Param) (flag : Bool) (vs : List Seen)
    : Type 0 where
  pub same_shape : shape after ≡ shape before
  pub fit : AllFit (rebind after) after
  pub kept : flag ≡ false → (bs : List Bound) → AllFit bs before → AllFit bs after
  pub moved : any_longer get before ≡ true → flag ≡ true
  pub read : (bs : List Bound) → AllFit bs after → seen_all bs after ≡ vs

none-AreStored : (get : ℤ → LuaValue) → AreStored get [] [] false []
unfolding AllFit rebind seen_all any_longer
none-AreStored get = record {
  same_shape = refl;
  fit = tt;
  kept = λ e bs f. f;
  moved = λ e. absurd (ground arith);
  read = λ bs f. elim bs as (λ bs. seen_all bs [] ≡ []) [ [] ↦ refl | b ∷ bs ↦ refl ];
}

one_more-kept :
    (p : Param) (ps qs : List Param) (slot : Slot) (f g : Bool) (w : Seen) (ws : List Seen)
    (get : ℤ → LuaValue)
    → IsStored (get p.id) p.slot slot f w
    → AreStored get ps qs g ws
    → (f || g) ≡ false
    → (bs : List Bound) → AllFit bs (p ∷ ps)
    → AllFit bs (record { id = p.id; is_null = false; slot = slot } ∷ qs)
unfolding AllFit
one_more-kept p ps qs slot f g w ws get one rest e [] h = h
one_more-kept p ps qs slot f g w ws get one rest e (b ∷ bs) h =
    (one.kept (ground (arith, e)) b h.0, rest.kept (ground (arith, e)) bs h.1)

one_more-read :
    (p : Param) (ps qs : List Param) (slot : Slot) (f g : Bool) (w : Seen) (ws : List Seen)
    (get : ℤ → LuaValue)
    → IsStored (get p.id) p.slot slot f w
    → AreStored get ps qs g ws
    → (bs : List Bound) → AllFit bs (record { id = p.id; is_null = false; slot = slot } ∷ qs)
    → seen_all bs (record { id = p.id; is_null = false; slot = slot } ∷ qs) ≡ w ∷ ws
unfolding AllFit seen_all
one_more-read p ps qs slot f g w ws get one rest [] h = absurd h
one_more-read p ps qs slot f g w ws get one rest (b ∷ bs) h =
    ap₂ (λ v l. v ∷ l) (one.reads b h.0) (rest.read bs h.1)

one_more-AreStored :
    (get : ℤ → LuaValue) (p : Param) (ps qs : List Param) (slot : Slot) (f g : Bool) (w : Seen)
    (ws : List Seen)
    → IsStored (get p.id) p.slot slot f w
    → AreStored get ps qs g ws
    → AreStored get
        (p ∷ ps)
        (record { id = p.id; is_null = false; slot = slot } ∷ qs)
        (f || g)
        (w ∷ ws)
unfolding AllFit rebind seen_all any_longer shape
one_more-AreStored get p ps qs slot f g w ws one rest = record {
  same_shape = ap₂ (λ k l. (p.id, k) ∷ l) one.same_kind rest.same_shape;
  fit = (one.fits, rest.fit);
  kept = one_more-kept p ps qs slot f g w ws get one rest;
  moved = λ e. elim (Bool-cases (is_longer (get p.id) p.slot)) [
    | inl z ↦ ground (arith, one.moved z)
    | inr z ↦ ground (arith, rest.moved (ground (arith, e, z)))
  ];
  read = one_more-read p ps qs slot f g w ws get one rest;
}

pub values_lem :
    (lua : Lua)
    → IsChecking lua
    → (get : ℤ → LuaValue) (ps : List Param) (vs : List Seen) → all_wanted get (shape ps) ≡ some vs
    → (after : List Param) × (flag : Bool) × (set_values lua get ps ≡ some (after, flag))
      × AreStored get ps after flag vs
unfolding all_wanted set_values shape
values_lem lua c get [] vs e =
    ([], false, refl, subst (AreStored get [] [] false) (some_injective e) (none-AreStored get))
values_lem lua c get (p ∷ ps) vs e =
    let (w, ew, e') =
      >>=-some (wanted (kind p.slot) (get p.id))
        (λ w. all_wanted get (shape ps) >>= (λ ws. some (w ∷ ws))) vs e in
    let (ws, ews, e'') = >>=-some (all_wanted get (shape ps)) (λ ws. some (w ∷ ws)) vs e' in
    let (slot, f, es, one) = value_lem lua c (get p.id) p.is_null p.slot w ew in
    let (qs, g, eq, rest) = values_lem lua c get ps ws ews in
    let after = record { id = p.id; is_null = false; slot = slot } ∷ qs in
    (
      after,
      f || g,
      rw es (rw eq refl),
      subst (AreStored get (p ∷ ps) after (f || g)) (some_injective e'')
          (one_more-AreStored get p ps qs slot f g w ws one rest),
    )
