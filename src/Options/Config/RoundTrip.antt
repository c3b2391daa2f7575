-- ===== src/Options/Config/RoundTrip.antt =====
-- What read_config makes of the text that write_config gives.
use my_sqltutorials.Prelude.{
  ℕ, zero, suc, ◌+◌, ◌<◌, ◌≤◌, ◌≡◌, ◌≢◌, refl, ap, sym, ◌∙◌, arith, Bool, true, false, some, List,
  [], ◌∷◌, ◌++◌, ◌==◌, ◌||◌, Chars, length, length-append, append_assoc, append_nil,
}
use my_sqltutorials.Options.{Opt, add_option, update_option}
use my_sqltutorials.Options.Config.{
  fgets, split_line, span, ends_value, read_values, read_line, read_config, with_values,
  write_values, write_option, write_config, read_parts,
}

-- No character of a text is of a kind.
abbrev pub Lacks : (ℕ → Bool) → Chars → Type 0
Lacks stop [] = Unit {0}
Lacks stop (c ∷ s) = (stop c ≡ false) × Lacks stop s

abbrev pub is_mark : ℕ → Bool
is_mark c = (c == 35) || ((c == 39) || (c == 34))

-- A value that needs no quotes.
abbrev pub IsPlain : Chars → Type 0
IsPlain [] = ⊥
IsPlain (c ∷ s) = (is_mark c ≡ false) × Lacks ends_value (c ∷ s)

abbrev pub AllPlain : List Chars → Type 0
AllPlain [] = Unit {0}
AllPlain (v ∷ vs) = IsPlain v × AllPlain vs

span-stop :
    (stop : ℕ → Bool) (v rest : Chars) (d : ℕ)
    → Lacks stop v
    → stop d ≡ true
    → span stop (v ++ d ∷ rest) ≡ (v, d ∷ rest)
unfolding span
span-stop stop [] rest d h e = rw e
span-stop stop (c ∷ v) rest d h e = rw (h.0, span-stop stop v rest d h.1 e)

split-line :
    (name rest : Chars)
    → Lacks (λ c. c == 61) name
    → split_line (name ++ 61 ∷ rest) ≡ some (name, rest)
unfolding split_line
split-line [] rest h = refl
split-line (c ∷ name) rest h = rw (h.0, split-line name rest h.1)

fgets-line :
    (room : ℕ) (line rest : Chars)
    → Lacks (λ c. c == 10) line
    → length line < room
    → fgets room (line ++ 10 ∷ rest) ≡ (line ++ 10 ∷ [], rest)
unfolding fgets
fgets-line zero line rest h l = absurd (omega arith)
fgets-line (suc room) [] rest h l = refl
fgets-line (suc room) (c ∷ line) rest h l = rw (h.0, fgets-line room line rest h.1 (omega arith))

read-space :
    (fuel : ℕ) (s : Chars) (values : List Chars)
    → read_values (suc fuel) (32 ∷ s) values ≡ read_values fuel s values
unfolding read_values
read-space fuel s values = refl

read-plain :
    (fuel d : ℕ) (v rest : Chars) (values : List Chars)
    → IsPlain v
    → ends_value d ≡ true
    → read_values (suc fuel) (v ++ d ∷ rest) values ≡ read_values fuel rest (values ++ v ∷ [])
unfolding read_values
read-plain fuel d [] rest values h e = absurd h
read-plain fuel d (c ∷ v) rest values h e =
    ground (arith, span-stop ends_value (c ∷ v) rest d h.1 e, h.0, h.1.0)

abbrev pair_of : Bool → List Chars → Bool × List Chars
pair_of b x = (b, x)

read-end :
    (fuel : ℕ) (values : List Chars)
    → read_values (suc (suc fuel)) (10 ∷ []) values ≡ (false, values ++ [])
unfolding read_values
read-end fuel values = ap (λ (x : List Chars). pair_of false x) (sym (append_nil values))

read-nothing : (fuel : ℕ) (values : List Chars) → read_values (suc fuel) [] values ≡ (false, values)
unfolding read_values
read-nothing fuel values = refl

plain-long : (v : Chars) → IsPlain v → 0 < length v
plain-long [] h = absurd h
plain-long (c ∷ v) h = omega arith

-- Behind the `=`, the values are read to the end of the line.
read-write :
    (fuel : ℕ) (vs values : List Chars)
    → AllPlain vs
    → length (write_values vs) + 1 < fuel
    → read_values fuel (write_values vs ++ 10 ∷ []) values ≡ (false, values ++ vs)
unfolding write_values
read-write zero vs values h l = absurd (omega arith)
read-write (suc zero) vs values h l = absurd (omega arith)
read-write (suc (suc fuel)) [] values h l = read-end fuel values
read-write (suc (suc fuel)) (v ∷ []) values h l =
    read-plain (suc fuel) 10 v [] values h.0 refl ∙ read-nothing fuel _
read-write (suc (suc fuel)) (v ∷ w ∷ vs) values h l =
    let rest = write_values (w ∷ vs) ++ 10 ∷ [] in
    let len = length-append v (44 ∷ 32 ∷ write_values (w ∷ vs)) in
    ap (λ s. read_values (suc (suc fuel)) s values)
      (append_assoc v (44 ∷ 32 ∷ write_values (w ∷ vs)) (10 ∷ []))
    ∙ read-plain (suc fuel) 44 v (32 ∷ rest) values h.0 refl
    ∙ read-space fuel rest (values ++ v ∷ [])
    ∙ read-write fuel (w ∷ vs) (values ++ v ∷ []) h.1 (omega (arith, len, plain-long v h.0))
    ∙ ap (λ (x : List Chars). pair_of false x) (append_assoc values (v ∷ []) (w ∷ vs))

-- What a line that was written does to the options.
abbrev pub store : List Opt → Opt → List Opt
store os o =
    let name = o.name ++ 32 ∷ [] in update_option (with_values o.values) (add_option os name) name

-- A name and values that fit into a line, and hold nothing that the file gives a meaning to.
abbrev pub IsWritable : Opt → Type 0
IsWritable o =
    Lacks (λ c. c == 61) o.name
    × Lacks (λ c. c == 10) o.name
    × AllPlain o.values
    × (length (write_option o) < 256)

Lacks-append : (stop : ℕ → Bool) (s t : Chars) → Lacks stop s → Lacks stop t → Lacks stop (s ++ t)
Lacks-append stop [] t h k = k
Lacks-append stop (c ∷ s) t h k = (h.0, Lacks-append stop s t h.1 k)

abbrev is_newline : ℕ → Bool
is_newline c = c == 10

Lacks-newline : (v : Chars) → Lacks ends_value v → Lacks is_newline v
Lacks-newline [] h = tt
Lacks-newline (c ∷ v) h = (ground (arith, h.0), Lacks-newline v h.1)

plain-newline : (v : Chars) → IsPlain v → Lacks is_newline v
plain-newline [] h = tt
plain-newline (c ∷ v) h = Lacks-newline (c ∷ v) h.1

values-newline : (vs : List Chars) → AllPlain vs → Lacks is_newline (write_values vs)
unfolding write_values
values-newline [] h = tt
values-newline (v ∷ []) h = plain-newline v h.0
values-newline (v ∷ w ∷ vs) h =
    Lacks-append is_newline v (44 ∷ 32 ∷ write_values (w ∷ vs)) (plain-newline v h.0)
      (refl, (refl, values-newline (w ∷ vs) h.1))

read_line-split :
    (name t line : Chars) (os : List Opt) (values : List Chars)
    → split_line line ≡ some (name, t)
    → read_values (suc (length t)) t [] ≡ (false, values)
    → read_line line os ≡ (false, update_option (with_values values) (add_option os name) name)
unfolding read_line read_parts
read_line-split name t line os values e f = rw (e, f)

read-line :
    (o : Opt) (os : List Opt) → IsWritable o → read_line (write_option o) os ≡ (false, store os o)
unfolding write_option
read-line o os h =
    let r = write_values o.values ++ 10 ∷ [] in
    let named : Lacks (λ c. c == 61) (o.name ++ 32 ∷ []) =
      Lacks-append (λ c. c == 61) o.name (32 ∷ []) h.0 (refl, tt) in
    read_line-split (o.name ++ 32 ∷ []) (32 ∷ r) (write_option o) os o.values
      (ap split_line (sym (append_assoc o.name (32 ∷ []) (61 ∷ 32 ∷ r)))
        ∙ split-line (o.name ++ 32 ∷ []) (32 ∷ r) named)
      (read-space (length (32 ∷ r)) r []
        ∙ read-write (length (32 ∷ r)) o.values [] h.2
            (omega (arith, length-append (write_values o.values) (10 ∷ []))))

-- The options are written where they are not ignored; all are new here.
abbrev pub unwritten : List Opt → List (Opt × Bool)
unwritten [] = []
unwritten (o ∷ os) = (o, false) ∷ unwritten os

abbrev pub store_all : List Opt → List Opt → List Opt
store_all os [] = os
store_all os (o ∷ rest) = store_all (store os o) rest

abbrev pub AllWritable : List Opt → Type 0
AllWritable [] = Unit {0}
AllWritable (o ∷ os) = IsWritable o × AllWritable os

abbrev text_pair : Chars → Chars → Chars × Chars
text_pair a b = (a, b)

fgets-option :
    (o : Opt) (rest : Chars)
    → IsWritable o
    → fgets 255 (write_option o ++ rest) ≡ (write_option o, rest)
unfolding write_option
fgets-option o rest h =
    let line = o.name ++ (32 ∷ 61 ∷ 32 ∷ write_values o.values) in
    let whole : line ++ 10 ∷ [] ≡ write_option o =
      append_assoc o.name (32 ∷ 61 ∷ 32 ∷ write_values o.values) (10 ∷ []) in
    let lacks : Lacks is_newline line =
      Lacks-append is_newline o.name (32 ∷ 61 ∷ 32 ∷ write_values o.values) h.1
        (refl, (refl, (refl, values-newline o.values h.2))) in
    ap (λ s. fgets 255 (s ++ rest)) (sym whole)
    ∙ ap (fgets 255) (append_assoc line (10 ∷ []) rest)
    ∙ fgets-line 255 line rest lacks
        (omega (arith, h.3, ap length whole, length-append line (10 ∷ [])))
    ∙ ap (λ (s : Chars). text_pair s rest) whole

read_config-line :
    (fuel : ℕ) (file line rest : Chars) (os os' : List Opt)
    → file ≢ []
    → fgets 255 file ≡ (line, rest)
    → read_line line os ≡ (false, os')
    → read_config (suc fuel) file os ≡ read_config fuel rest os'
unfolding read_config
read_config-line fuel [] line rest os os' ne e f = absurd (ne refl)
read_config-line fuel (c ∷ file) line rest os os' ne e f = rw (e, f)

read_config-end : (fuel : ℕ) (os : List Opt) → read_config fuel [] os ≡ (false, os)
unfolding read_config
read_config-end zero os = refl
read_config-end (suc fuel) os = refl

write_option-ne : (o : Opt) (rest : Chars) → write_option o ++ rest ≢ []
unfolding write_option
write_option-ne o rest e = absurd (
    omega (
      arith,
      ap length e,
      length-append o.name (32 ∷ 61 ∷ 32 ∷ (write_values o.values ++ 10 ∷ [])),
      length-append (o.name ++ (32 ∷ 61 ∷ 32 ∷ (write_values o.values ++ 10 ∷ []))) rest,
    ))

-- For options whose lines are shorter than 256 characters, whose names have no `=` and no end of
-- line, and whose values are not empty, have no comma and no white space and start with no quote
-- and no `#`: what write_config writes, where no option is ignored, read_config reads with no
-- error, a line for each option; the values come back as they were, under the name with a space
-- behind it.
pub read_config-write :
    (os base : List Opt) (fuel : ℕ)
    → AllWritable os
    → length os ≤ fuel
    → read_config fuel (write_config (unwritten os)).0 base ≡ (false, store_all base os)
unfolding write_config
read_config-write [] base fuel h l = read_config-end fuel base
read_config-write (o ∷ os) base zero h l = absurd (omega arith)
read_config-write (o ∷ os) base (suc fuel) h l =
    let rest = (write_config (unwritten os)).0 in
    read_config-line fuel (write_option o ++ rest) (write_option o) rest base (store base o)
      (write_option-ne o rest) (fgets-option o rest h.0) (read-line o base h.0)
    ∙ read_config-write os (store base o) fuel h.1 (omega arith)
