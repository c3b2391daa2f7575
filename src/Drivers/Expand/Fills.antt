-- ===== src/Drivers/Expand/Fills.antt =====
-- The loop against the plain replacement.
use my_sqltutorials.Prelude.{
  ℕ, ◌+◌, ◌*◌, ◌<◌, ◌≤◌, ◌^◌, ◌≡◌, ◌≢◌, ◌⊎◌, inl, inr, refl, ap, sym, ◌∙◌, arith, Bool, true,
  Option, some, [], ◌∷◌, ◌++◌, ◌==◌, if◌then◌else◌, Chars, length, length-append, append_assoc,
  append_nil, Bool-cases, Option-cases,
}
use my_sqltutorials.Drivers.Expand.{Buffer, done, empty_buffer, put_next, expand, substitute}
use my_sqltutorials.Drivers.Expand.Reserves.{
  IsOpen, reserved, reserve-done, text-reserved, append-IsOpen, put_value-done, put_char-done,
  empty-IsOpen, filled,
}

module _ (n : ℕ) (small : n < 2 ^ 29) (realloc : ℕ → Bool)
    (memory : (k : ℕ) → k ≤ 2 * n + 256 → realloc k ≡ true) where
  module _ (value : ℕ → Option Chars) where
    put_next-done :
        (vcnt c : ℕ) (t : Chars) (b : Buffer)
        → IsOpen n b
        → (if c == 63 then value vcnt else some (c ∷ [])) ≡ some t
        → length b.text + length t ≤ n
        → (r : Buffer) × (put_next realloc value vcnt c b ≡ done r)
          × (r.text ≡ b.text ++ t)
          × IsOpen n r
          × (0 < r.buflen)
    unfolding put_next
    put_next-done vcnt c t b h e k =
        let (e', h') = reserve-done n small realloc memory b h in
        let same = text-reserved n small realloc memory b in
        elim (Bool-cases (c == 63)) [
          | inl m ↦
              let (r, p, q, o, z) =
                put_value-done n small realloc memory 31 t b (reserved b) e' h' (rw same k)
                  (omega (arith, h'.least)) in
              let v : value vcnt ≡ some t = rw m at e in
              (r, rw (m, v) p, q ∙ ap (λ s. s ++ t) same, o, z)
          | inr m ↦
              let v : some (c ∷ []) ≡ some t = rw m at e in
              let v' : c ∷ [] ≡ t = cc in
              let r' = record (reserved b) { text = (reserved b).text ++ c ∷ [] } in
              let short : length (reserved b).text + 1 ≤ n =
                omega (arith, ap length same, ap length v') in
              (
                r',
                rw (m, e') (put_char-done n small realloc memory c (reserved b) h'),
                rw (same, v'),
                append-IsOpen n small realloc memory (reserved b) (c ∷ []) h' short h'.room,
                omega (arith, h'.least),
              )
        ]

    substitute_end : (vcnt : ℕ) (t : Chars) → substitute value vcnt [] ≡ some t → [] ≡ t
    unfolding substitute
    substitute_end vcnt t e = cc

    substitute_inv :
        (vcnt c : ℕ) (query t : Chars)
        → substitute value vcnt (c ∷ query) ≡ some t
        → (a rest : Chars) × ((if c == 63 then value vcnt else some (c ∷ [])) ≡ some a)
          × (substitute value (if c == 63 then vcnt + 1 else vcnt) query ≡ some rest)
          × (t ≡ a ++ rest)
    unfolding substitute
    substitute_inv vcnt c query t e =
        elim (Option-cases (if c == 63 then value vcnt else some (c ∷ []))) [
          | inl p ↦ absurd (ground arith)
          | inr (a, p) ↦
              elim (Option-cases (substitute value (if c == 63 then vcnt + 1 else vcnt) query)) [
                | inl q ↦ absurd (ground arith)
                | inr (rest, q) ↦ (a, rest, p, q, ground arith)
              ]
        ]

    -- Where the query has a text, the loop writes it within the buffer.
    expand-done :
        (query : Chars) (vcnt : ℕ) (b : Buffer) (t : Chars)
        → IsOpen n b
        → (0 < b.buflen) ⊎ (0 < length query)
        → substitute value vcnt query ≡ some t
        → length b.text + length t ≤ n
        → (r : Buffer) × (expand realloc value vcnt query b ≡ done r)
          × (r.text ≡ b.text ++ t)
          × IsOpen n r
          × (0 < r.buflen)
    unfolding expand
    expand-done [] vcnt b t h (inl p) e k = (
      b,
      ground arith,
      sym (append_nil b.text) ∙ ap (λ s. b.text ++ s) (substitute_end vcnt t e),
      h,
      p,
    )
    expand-done [] vcnt b t h (inr p) e k = absurd (omega arith)
    expand-done (c ∷ query) vcnt b t h p e k =
        let (a, rest, ea, er, et) = substitute_inv vcnt c query t e in
        let len : length t ≡ length a + length rest = ap length et ∙ length-append a rest in
        let (r, q, same, o, z) = put_next-done vcnt c a b h ea (omega arith) in
        let len' : length r.text ≡ length b.text + length a =
          ap length same ∙ length-append b.text a in
        let (r', q', same', o', z') =
          expand-done query (if c == 63 then vcnt + 1 else vcnt) r rest o (inl z) er
            (omega arith) in
        (
          r',
          rw q q',
          same'
              ∙ ap (λ s. s ++ rest) same
              ∙ append_assoc b.text a rest
              ∙ ap (λ s. b.text ++ s) (sym et),
          o',
          z',
        )

-- A query that is not empty, with a value for each `?` from a first one on, whose text with the
-- values in their places is shorter than 2^29 characters, is expanded into that text, where every
-- request of memory up to twice its length and 256 bytes is met: no byte, the zero at the end
-- included, is written behind the buffer, and the buffer is no longer than that.
pub expand_lem :
    (value : ℕ → Option Chars) (realloc : ℕ → Bool) (first : ℕ) (query t : Chars)
    → query ≢ []
    → substitute value first query ≡ some t
    → length t < 2 ^ 29
    → ((k : ℕ) → k ≤ 2 * length t + 256 → realloc k ≡ true)
    → (r : Buffer) × (expand realloc value first query empty_buffer ≡ done r)
      × (r.text ≡ t)
      × (length t < r.buflen)
      × (r.buflen ≤ 2 * length t + 256)
expand_lem value realloc first [] t h e l m = absurd (h refl)
expand_lem value realloc first (c ∷ query) t h e l m =
    let start : IsOpen (length t) empty_buffer = empty-IsOpen (length t) in
    let (r, q, same, o, z) =
      expand-done (length t) l realloc m value (c ∷ query) first empty_buffer t start
        (inr (omega arith)) e (omega arith) in
    (r, q, same, filled (length t) r o z same, o.bounded)
