-- ===== src/Logger/Text/Repeats.antt =====
-- The lines of the text handler stand for all messages, in order: a line of repeats stands for the
-- text before it.
use my_sqltutorials.Prelude.{
  ℕ, zero, suc, ◌+◌, ◌-◌, ◌≤◌, ◌<◌, ◌≡◌, ◌⊎◌, inl, inr, refl, ap, ap₂, subst, sym, ◌∙◌, arith, Bool,
  true, false, some, List, [], ◌∷◌, ◌++◌, ltb, if◌then◌else◌, length, take, replicate, append_assoc,
  append_nil, Chars,
}
use my_sqltutorials.Prelude.Words.{u32_mod, add32}
use my_sqltutorials.Logger.{Printf, text_buffer_size, newline, log_text_buffer}
use my_sqltutorials.Logger.Buffers.{Prints, log_text_buffer-take, length-take_le, take-all}
use my_sqltutorials.Logger.Text.{
  TextMsg, Line, repeated, shown, TextLog, same_text, flush, show_line, replace,
  text_handler_process, log_text_msg, process_all, text_handler_init,
}

-- The texts that the lines stand for, behind the text `last`.
abbrev pub decode : Chars → List Line → List Chars
decode last [] = []
decode last (repeated n ∷ ls) = replicate n last ++ decode last ls
decode last (shown p t ∷ ls) = t ∷ decode t ls

-- The texts of the messages that the verbosity lets through.
abbrev pub accepted : ℕ → List TextMsg → List Chars
accepted verbosity [] = []
accepted verbosity (m ∷ ms) =
    if ltb verbosity m.priority then accepted verbosity ms else m.text ∷ accepted verbosity ms

-- Messages with duplicate checks, whose texts fit into the buffer.
abbrev pub AllChecked : List TextMsg → Type 0
AllChecked [] = Unit {0}
AllChecked (m ∷ ms) = (m.flags ≡ 0) × (length m.text ≤ text_buffer_size) × AllChecked ms

same_text_iff : (s t : Chars) → same_text s t ≡ true → s ≡ t
unfolding same_text
same_text_iff [] [] e = refl
same_text_iff [] (d ∷ t) e = cc
same_text_iff (c ∷ s) [] e = cc
same_text_iff (c ∷ s) (d ∷ t) e = ground (arith, same_text_iff s t)

replicate_more :
    {A : Type 0} (n : ℕ) (a : A) (xs : List A) → replicate (suc n) a ++ xs ≡ replicate n a ++ a ∷ xs
replicate_more zero a xs = refl
replicate_more (suc n) a xs = ap (λ l. a ∷ l) (replicate_more n a xs)

-- The texts that a state has let through but not written.
abbrev pub pending : TextLog → List Chars
pending s = replicate s.text_cnt s.text_buf

decode-flush :
    (last : Chars) (n : ℕ) (ls : List Line)
    → decode last (flush n ++ ls) ≡ replicate n last ++ decode last ls
decode-flush last zero ls = refl
decode-flush last (suc n) ls =
    ap (λ b. decode last ((if b then repeated (suc n) ∷ [] else []) ++ ls)) positive
  where
    positive : ltb 0 (suc n) ≡ true
    positive = ground arith

decode-append :
    (last : Chars) (n : ℕ) (m : TextMsg) (ls : List Line) (rest : List Chars)
    → decode last ((flush n ++ show_line m ∷ []) ++ ls) ++ rest
      ≡ replicate n last ++ m.text ∷ (decode m.text ls ++ rest)
decode-append last n m ls rest =
    ap (λ l. decode last l ++ rest) (append_assoc (flush n) (show_line m ∷ []) ls)
    ∙ ap (λ l. l ++ rest) (decode-flush last n (show_line m ∷ ls))
    ∙ append_assoc (replicate n last) (m.text ∷ decode m.text ls) rest

-- What the handler does with a checked message: nothing, count it, or write it.
process-cases :
    (m : TextMsg) (s : TextLog)
    → m.flags ≡ 0
    → ((ltb s.verbosity m.priority ≡ true) × (text_handler_process m s ≡ ([], s)))
      ⊎ ((ltb s.verbosity m.priority ≡ false)
          × ((same_text s.text_buf m.text ≡ true)
                × (text_handler_process m s ≡ ([], record s { text_cnt = add32 s.text_cnt 1 }))
              ⊎ (text_handler_process m s ≡ replace m s)))
unfolding text_handler_process
process-cases m s h = ground arith

module _ (m : TextMsg) (ms : List TextMsg) (s : TextLog) where
  -- The goal of the induction, for what the handler gives and what is accepted.
  abbrev Decodes : List Line × TextLog → List Chars → Type 0
  Decodes r a =
      decode s.text_buf (r.0 ++ (process_all ms r.1).0) ++ pending (process_all ms r.1).1
      ≡ pending s ++ a

  Decodes-process :
      (r : List Line × TextLog) (b : Bool)
      → text_handler_process m s ≡ r
      → ltb s.verbosity m.priority ≡ b
      → Decodes r (if b then accepted s.verbosity ms else m.text ∷ accepted s.verbosity ms)
      → Decodes (text_handler_process m s) (accepted s.verbosity (m ∷ ms))
  Decodes-process r b e e' d =
      ap (λ x. decode s.text_buf (x.0 ++ (process_all ms x.1).0) ++ pending (process_all ms x.1).1)
        e
      ∙ d
      ∙ ap
          (λ x.
            pending s ++ (if x then accepted s.verbosity ms else m.text ∷ accepted s.verbosity ms))
          (sym e')

decode-process :
    (ms : List TextMsg) (s : TextLog)
    → AllChecked ms
    → s.text_cnt + length ms < u32_mod
    → decode s.text_buf (process_all ms s).0 ++ pending (process_all ms s).1
      ≡ pending s ++ accepted s.verbosity ms
unfolding process_all
decode-process [] s h k = sym (append_nil (pending s))
decode-process (m ∷ ms) s h k = elim (process-cases m s h.0) [
  | inl (e, p) ↦ Decodes-process m ms s _ _ p e (decode-process ms s h.2 (omega arith))
  | inr (e, inl (t, p)) ↦
      let s' : TextLog = record s { text_cnt = add32 s.text_cnt 1 } in
      let one : add32 s.text_cnt 1 ≡ suc s.text_cnt = omega arith in
      Decodes-process m ms s _ _ p e (
        decode-process ms s' h.2 (omega arith)
        ∙ ap (λ n. replicate n s.text_buf ++ accepted s.verbosity ms) one
        ∙ replicate_more s.text_cnt s.text_buf (accepted s.verbosity ms)
        ∙ ap (λ x. pending s ++ x ∷ accepted s.verbosity ms) (same_text_iff s.text_buf m.text t))
  | inr (e, inr p) ↦
      let s' : TextLog = record s { text_cnt = 0; text_buf = take text_buffer_size m.text } in
      let (ls, u) = process_all ms s' in
      Decodes-process m ms s _ _ p e (
        decode-append s.text_buf s.text_cnt m ls (pending u)
        ∙ ap (λ x. pending s ++ m.text ∷ (decode x ls ++ pending u))
            (sym (take-all text_buffer_size m.text h.1))
        ∙ ap (λ l. pending s ++ m.text ∷ l) (decode-process ms s' h.2 (omega arith)))
]

-- The texts that calls of log_text, with a priority and a formatted message, are to write.
abbrev pub to_write : ℕ → List (ℕ × Chars) → List Chars
to_write verbosity [] = []
to_write verbosity ((priority, s) ∷ calls) =
    if ltb verbosity priority
    then to_write verbosity calls
    else take (text_buffer_size - 1) (s ++ newline) ∷ to_write verbosity calls

module _ (printf : Chars → Printf) (prints : (s : Chars) → Prints (printf s) s) where
  abbrev pub messages : List (ℕ × Chars) → List TextMsg
  messages [] = []
  messages ((priority, s) ∷ calls) = log_text_msg priority (printf s) ∷ messages calls

  accepted-messages :
      (verbosity : ℕ) (calls : List (ℕ × Chars))
      → accepted verbosity (messages calls) ≡ to_write verbosity calls
  accepted-messages verbosity [] = refl
  accepted-messages verbosity ((priority, s) ∷ calls) =
      ap₂ (λ x l. if ltb verbosity priority then l else x ∷ l)
        (log_text_buffer-take (printf s) s (prints s)) (accepted-messages verbosity calls)

  messages-AllChecked : (calls : List (ℕ × Chars)) → AllChecked (messages calls)
  messages-AllChecked [] = tt
  messages-AllChecked ((priority, s) ∷ calls) =
      let fits = length-take_le (text_buffer_size - 1) (s ++ newline) in
      let short : length (log_text_buffer (printf s)) ≤ text_buffer_size =
        subst (λ l. length l ≤ text_buffer_size)
          (sym (log_text_buffer-take (printf s) s (prints s))) (omega (arith, fits)) in
      (refl, short, messages-AllChecked calls)

  length-messages : (calls : List (ℕ × Chars)) → length (messages calls) ≡ length calls
  length-messages [] = refl
  length-messages (c ∷ calls) = ap suc (length-messages calls)

  -- After text_handler_init, the lines that the text handler prints for fewer than 2^32 calls of
  -- log_text stand for the texts of exactly those calls that the verbosity lets through, each with
  -- its newline and cut to 4095 characters, in order: a line "last message repeated n times" for n
  -- more of the text before it, and the texts counted last, which are not printed yet, at the end. It
  -- is assumed that vsnprintf does what C says.
  pub decode-log_text :
      (verbosity : ℕ) (calls : List (ℕ × Chars)) (s : TextLog)
      → text_handler_init verbosity ≡ some s
      → length calls < u32_mod
      → decode [] (process_all (messages calls) s).0 ++ pending (process_all (messages calls) s).1
        ≡ to_write verbosity calls
  unfolding text_handler_init
  decode-log_text verbosity calls s e h =
      let start : s ≡ record { verbosity = verbosity; text_cnt = 0; text_buf = [] } =
        ground arith in
      subst
        (λ t.
          decode [] (process_all (messages calls) t).0 ++ pending (process_all (messages calls) t).1
          ≡ to_write verbosity calls)
        (sym start)
        (decode-process (messages calls) _ (messages-AllChecked calls)
            (omega (arith, length-messages calls))
          ∙ accepted-messages verbosity calls)
