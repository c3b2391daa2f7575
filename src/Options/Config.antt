-- ===== src/Options/Config.antt =====
-- read_config and write_config of sb_options.c, add_value, find_value and remove_value, and the files
-- as the texts that they hold. Allocation succeeds.
pub mod RoundTrip
pub mod Lost
mod Tests
use my_sqltutorials.Prelude.{
  ℕ, zero, suc, ◌+◌, ◌-◌, ◌<◌, ◌≡◌, arith, Bool, true, false, not, Option, none, some, List, [],
  ◌∷◌, ◌++◌, ◌==◌, ltb, leb, ◌&&◌, ◌||◌, if◌then◌else◌, Chars, length,
}
use my_sqltutorials.Logger.Text.{same_text}
use my_sqltutorials.Options.{Opt, ArgType, add_option, update_option, find_option}

-- A value of an option is added at the end.
unfoldable pub add_value : List Chars → Chars → List Chars
add_value values v = values ++ v ∷ []

unfoldable pub find_value : List Chars → Chars → Option Chars
find_value [] v = none
find_value (w ∷ values) v = let rest = find_value values v in if same_text w v then some w else rest

-- The first value that is found is removed; `none` is the result 1.
unfoldable pub remove_value : List Chars → Chars → Option (List Chars)
remove_value [] v = none
remove_value (w ∷ values) v =
    let rest = remove_value values v in
    if same_text w v then some values else elim rest [ none ↦ none | some ws ↦ some (w ∷ ws) ]

abbrev pub max_str_len : ℕ
max_str_len = 256

abbrev pub is_space : ℕ → Bool
is_space c = (c == 32) || (leb 9 c && leb c 13)

-- fgets with room for `room` characters: a line with its end, or as much as there is room for; and
-- the rest of the file.
unfoldable pub fgets : (room : ℕ) → Chars → Chars × Chars
fgets zero file = ([], file)
fgets (suc room) [] = ([], [])
fgets (suc room) (c ∷ file) =
    let (line, rest) = fgets room file in if c == 10 then (c ∷ [], file) else (c ∷ line, rest)

-- The text before the first `=`, and the text behind it.
unfoldable pub split_line : Chars → Option (Chars × Chars)
split_line [] = none
split_line (c ∷ s) =
    let rest = split_line s in
    if c == 61
    then some ([], s)
    else elim rest [ none ↦ none | some (name, text) ↦ some (c ∷ name, text) ]

-- The text up to the first character of a kind, and the text from there on.
unfoldable pub span : (ℕ → Bool) → Chars → Chars × Chars
span stop [] = ([], [])
span stop (c ∷ s) = let (a, b) = span stop s in if stop c then ([], c ∷ s) else (c ∷ a, b)

abbrev pub behind : Chars → Chars
behind [] = []
behind (c ∷ s) = s

abbrev pub ends_value : ℕ → Bool
ends_value c = (c == 44) || is_space c

-- The values of a line behind the `=`, after those that are read; the flag tells of a quote with no
-- end.
unfoldable pub read_values : (fuel : ℕ) → Chars → List Chars → Bool × List Chars
unfolding add_value
read_values zero s values = (false, values)
read_values (suc fuel) [] values = (false, values)
read_values (suc fuel) (c ∷ s) values =
    let skip = read_values fuel s values in
    let (quoted, after) = span (λ d. d == c) s in
    let after_quote =
      read_values fuel (behind (span (λ d. d == 44) (behind after)).1) (add_value values quoted) in
    let (plain, rest) = span ends_value (c ∷ s) in
    let after_plain = read_values fuel (behind rest) (add_value values plain) in
    if is_space c
    then skip
    else if c == 35
    then (false, values)
    else if (c == 39) || (c == 34)
    then if length after == 0 then (true, values) else after_quote
    else after_plain

abbrev pub with_values : List Chars → Opt → Opt
with_values values o = record o { values = values }

-- One line, in its two parts; the flag is the error. A line with no `=` is passed over. The values
-- that were read before an error are kept.
unfoldable pub read_parts : Option (Chars × Chars) → List Opt → Bool × List Opt
unfolding read_values
read_parts none os = (false, os)
read_parts (some (name, text)) os =
    let (failed, values) = read_values (suc (length text)) text [] in
    (failed, update_option (with_values values) (add_option os name) name)

unfoldable pub read_line : Chars → List Opt → Bool × List Opt
unfolding read_parts split_line
read_line line os = read_parts (split_line line) os

-- The fuel counts the lines.
unfoldable pub read_config : (fuel : ℕ) → (file : Chars) → List Opt → Bool × List Opt
unfolding read_line fgets
read_config zero file os = (false, os)
read_config (suc fuel) [] os = (false, os)
read_config (suc fuel) (c ∷ file) os =
    let (line, rest) = fgets (max_str_len - 1) (c ∷ file) in
    let (failed, os') = read_line line os in
    let more = read_config fuel rest os' in if failed then (true, os') else more

-- The values with a comma and a space between them.
unfoldable pub write_values : List Chars → Chars
write_values [] = []
write_values (v ∷ []) = v
write_values (v ∷ w ∷ values) = v ++ (44 ∷ 32 ∷ write_values (w ∷ values))

-- An option that has been written is ignored from then on, as `ignored` tells.
unfoldable pub write_option : Opt → Chars
unfolding write_values
write_option o = o.name ++ (32 ∷ 61 ∷ 32 ∷ (write_values o.values ++ 10 ∷ []))

unfoldable pub write_config : List (Opt × Bool) → Chars × List (Opt × Bool)
unfolding write_option
write_config [] = ([], [])
write_config ((o, ignored) ∷ os) =
    let (text, os') = write_config os in
    if ignored then (text, (o, true) ∷ os') else (write_option o ++ text, (o, true) ∷ os')
