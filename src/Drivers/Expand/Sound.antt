-- ===== src/Drivers/Expand/Sound.antt =====
-- What the loop has written when it ends, whatever memory it is given.
use my_sqltutorials.Prelude.{
  ℕ, zero, suc, ◌+◌, ◌≡◌, inl, inr, refl, ap, sym, ◌∙◌, arith, Bool, true, Option, none, some, [],
  ◌∷◌, ◌++◌, ◌==◌, ltb, if◌then◌else◌, Chars, length, append_assoc, append_nil, Bool-cases,
}
use my_sqltutorials.Drivers.Expand.{
  Buffer, Outcome, done, no_memory, unbound, overrun, spinning, empty_buffer, reserve, fits,
  put_char, put_value, bind, put_next, expand, substitute,
}

bind_inv :
    (o : Outcome) (f : Buffer → Outcome) (r : Buffer)
    → bind o f ≡ done r
    → (b : Buffer) × (o ≡ done b) × (f b ≡ done r)
bind_inv (done b) f r e = (b, refl, e)
bind_inv no_memory f r e = cc
bind_inv unbound f r e = cc
bind_inv overrun f r e = cc
bind_inv spinning f r e = cc

done_text : {b r : Buffer} → done b ≡ done r → b.text ≡ r.text
done_text w = cc

module _ (realloc : ℕ → Bool) where
  reserve_inv : (b r : Buffer) → reserve realloc b ≡ done r → r.text ≡ b.text
  unfolding reserve
  reserve_inv b r e = ground arith

  put_value_inv :
      (fuel : ℕ) (value : Option Chars) (b r : Buffer)
      → put_value fuel realloc value b ≡ done r
      → (t : Chars) × (value ≡ some t) × (r.text ≡ b.text ++ t)
  unfolding put_value
  put_value_inv zero value b r e = cc
  put_value_inv (suc fuel) none b r e =
      let (b', p, q) = bind_inv (reserve realloc b) (λ x. unbound) r e in absurd (ground arith)
  put_value_inv (suc fuel) (some t) b r e =
      let (b', p, q) = bind_inv _ _ r e in
      let same = reserve_inv b b' p in
      elim (Bool-cases (fits (length t) b')) [
        | inl f ↦
            let w : done (record b' { text = b'.text ++ t }) ≡ done r = ground arith in
            (t, refl, sym (done_text w) ∙ ap (λ s. s ++ t) same)
        | inr f ↦
            let w : put_value fuel realloc (some t) (record b' { need_realloc = true }) ≡ done r =
              ground arith in
            let (t', v, u) = put_value_inv fuel (some t) (record b' { need_realloc = true }) r w in
            (t', v, u ∙ ap (λ s. s ++ t') same)
      ]

  put_char_inv : (c : ℕ) (b r : Buffer) → put_char c b ≡ done r → r.text ≡ b.text ++ c ∷ []
  unfolding put_char
  put_char_inv c b r e = elim (Bool-cases (ltb (length b.text) b.buflen)) [
    | inl m ↦ sym (done_text (rw m at e))
    | inr m ↦ absurd (ground arith)
  ]

  unfinished :
      (b r : Buffer)
      → (if ltb (length b.text) b.buflen then done b else overrun) ≡ done r
      → r.text ≡ b.text
  unfinished b r e = elim (Bool-cases (ltb (length b.text) b.buflen)) [
    | inl m ↦ sym (done_text (rw m at e))
    | inr m ↦ absurd (ground arith)
  ]

  module _ (value : ℕ → Option Chars) where
    put_next_inv :
        (vcnt c : ℕ) (b r : Buffer)
        → put_next realloc value vcnt c b ≡ done r
        → (t : Chars) × ((if c == 63 then value vcnt else some (c ∷ [])) ≡ some t)
          × (r.text ≡ b.text ++ t)
    unfolding put_next
    put_next_inv vcnt c b r e = elim (Bool-cases (c == 63)) [
      | inl m ↦ rw m (put_value_inv 32 (value vcnt) b r (rw m at e))
      | inr m ↦
          let w : bind (reserve realloc b) (put_char c) ≡ done r = ground arith in
          let (b', p, q) = bind_inv (reserve realloc b) (put_char c) r w in
          (c ∷ [], rw m, put_char_inv c b' r q ∙ ap (λ s. s ++ c ∷ []) (reserve_inv b b' p))
    ]

    expand_inv :
        (query : Chars) (vcnt : ℕ) (b r : Buffer)
        → expand realloc value vcnt query b ≡ done r
        → (t : Chars) × (substitute value vcnt query ≡ some t) × (r.text ≡ b.text ++ t)
    unfolding expand substitute
    expand_inv [] vcnt b r e = ([], refl, unfinished b r e ∙ sym (append_nil b.text))
    expand_inv (c ∷ query) vcnt b r e =
        let (b', p, q) = bind_inv _ _ r e in
        let (a, v, u) = put_next_inv vcnt c b b' p in
        let (rest, v', u') = expand_inv query (if c == 63 then vcnt + 1 else vcnt) b' r q in
        (a ++ rest, ground (arith, v, v'), u' ∙ ap (λ s. s ++ rest) u ∙ append_assoc b.text a rest)

-- Whatever memory is given, a query that is expanded holds its text with the values in their
-- places; so a query with a `?` that has no value is never expanded.
pub expand-Sound :
    (value : ℕ → Option Chars) (realloc : ℕ → Bool) (first : ℕ) (query : Chars) (r : Buffer)
    → expand realloc value first query empty_buffer ≡ done r
    → substitute value first query ≡ some r.text
expand-Sound value realloc first query r e =
    let (t, v, u) = expand_inv realloc value query first empty_buffer r e in v ∙ ap some (sym u)
