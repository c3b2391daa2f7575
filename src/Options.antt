-- ===== src/Options.antt =====
-- sysbench-0.5/sysbench/sb_options.c and sb_options.h: the list of options. The options are a list, in the
-- order of `options`.
pub mod Names
pub mod Lookup
pub mod Size
pub mod Config
pub mod Set
mod Tests
use my_sqltutorials.Prelude.{
  ℕ, zero, suc, ◌+◌, ◌-◌, ◌*◌, ◌/◌, ◌%◌, ◌^◌, ◌≤◌, ◌<◌, ◌≡◌, ◌≢◌, ◌↔◌, ◌⊎◌, inl, inr, refl, ap, sym,
  ◌∙◌, arith, Bool, true, false, not, Option, none, some, List, [], ◌∷◌, ◌++◌, map, ltb, leb, ◌==◌,
  ◌&&◌, ◌||◌, if◌then◌else◌, Bool-cases, length, get_elem?, set, Chars,
}
use my_sqltutorials.Prelude.Int.{ℤ, pos, negsuc, sub_ℕ}
use my_sqltutorials.Prelude.Words.{u64_mod, add64, sub64}

-- sb_arg_type_t
pub data ArgType : Type 0 where
  null flag int size float string list file : ArgType

-- option_t, with the data of its values
pub record Opt : Type 0 where
  pub name : Chars
  pub type : ArgType
  pub values : List Chars

abbrev pub is_dash : ℕ → Bool
is_dash c = (c == 45) || (c == 95)

unfoldable pub convert_dashes : Chars → Chars
convert_dashes [] = []
convert_dashes (c ∷ s) = (if c == 45 then 95 else c) ∷ convert_dashes s

-- Zero for equal names; the sign is not used.
unfoldable pub opt_name_cmp : Chars → Chars → ℤ
opt_name_cmp [] [] = pos 0
opt_name_cmp [] (c2 ∷ s2) = sub_ℕ 0 c2
opt_name_cmp (c1 ∷ s1) [] = pos c1
opt_name_cmp (c1 ∷ s1) (c2 ∷ s2) =
    let rest = opt_name_cmp s1 s2 in
    if c1 == c2 then rest else if not (is_dash c1) || not (is_dash c2) then sub_ℕ c1 c2 else rest

abbrev pub is_zero : ℤ → Bool
is_zero (pos n) = n == 0
is_zero _ = false

unfoldable pub find_option : List Opt → Chars → Option Opt
find_option [] name = none
find_option (o ∷ os) name =
    if is_zero (opt_name_cmp o.name name) then some o else find_option os name

abbrev new_option : Chars → Opt
new_option name = record { name = convert_dashes name; type = ArgType.null; values = [] }

-- The option is found, or added at the end.
unfoldable pub add_option : List Opt → Chars → List Opt
add_option os name = elim (find_option os name) [ none ↦ os ++ new_option name ∷ [] | some o ↦ os ]

-- Writes to the option that `add_option` has given.
unfoldable pub update_option : (Opt → Opt) → List Opt → Chars → List Opt
update_option f [] name = []
update_option f (o ∷ os) name =
    if is_zero (opt_name_cmp o.name name) then f o ∷ os else o ∷ update_option f os name

-- Unlinks an option; `none` is the error that there is no such option.
unfoldable pub remove_option : List Opt → Chars → Option (List Opt)
remove_option [] name = none
remove_option (o ∷ os) name =
    if is_zero (opt_name_cmp o.name name)
    then some os
    else elim (remove_option os name) [ none ↦ none | some os' ↦ some (o ∷ os') ]

-- `strtok(value, ",")`: the parts that are not empty; `word` is the part read so far.
abbrev cons_word : Chars → List Chars → List Chars
cons_word [] ws = ws
cons_word (c ∷ word) ws = (c ∷ word) ∷ ws

unfoldable pub tokens : Chars → Chars → List Chars
tokens word [] = cons_word word []
tokens word (c ∷ s) = if c == 44 then cons_word word (tokens [] s) else tokens (word ++ c ∷ []) s

abbrev pub on : Chars
on = 111 ∷ 110 ∷ []

abbrev is_on : Chars → Bool
is_on (a ∷ b ∷ []) = (a == 111) && (b == 110)
is_on _ = false

-- The values that set_option adds for a type, other than those that a file adds.
unfoldable pub parse_value : ArgType → Option Chars → List Chars
parse_value ArgType.flag none = on ∷ []
parse_value ArgType.flag (some v) = if is_on v then on ∷ [] else []
parse_value type none = []
parse_value type (some []) = []
parse_value ArgType.list (some (c ∷ v)) = tokens [] (c ∷ v)
parse_value ArgType.file (some (c ∷ v)) = []
parse_value ArgType.null (some (c ∷ v)) = []
parse_value _ (some (c ∷ v)) = (c ∷ v) ∷ []

abbrev pub fill : ArgType → Option Chars → Opt → Opt
fill type value o = record o { type = type; values = parse_value type value }

-- The unknown type.
abbrev pub is_unknown : ArgType → Option Chars → Bool
is_unknown ArgType.null (some (c ∷ v)) = true
is_unknown _ _ = false

-- sb_arg_t, with its default value
pub record Arg : Type 0 where
  pub arg_name : Chars
  pub arg_type : ArgType
  pub arg_value : Option Chars

-- sb_get_value_flag, sb_get_value_string
unfoldable pub get_value_flag : List Opt → Chars → Bool
get_value_flag os name = elim (find_option os name) [
  | none ↦ false
  | some o ↦ elim o.values [ [] ↦ false | v ∷ vs ↦ true ]
]

unfoldable pub get_value_string : List Opt → Chars → Option Chars
get_value_string os name = elim (find_option os name) [
  | none ↦ none
  | some o ↦ elim o.values [ [] ↦ none | v ∷ vs ↦ some v ]
]

abbrev pub in_int : ℤ → Bool
in_int (pos n) = ltb n (2 ^ 31)
in_int (negsuc n) = ltb n (2 ^ 31)

-- `strtol` gives the number and the characters behind it; `none` is the exit on an invalid value.
unfoldable pub opt_to_int : (Chars → ℤ × Chars) → Opt → Option ℤ
opt_to_int strtol o = elim o.values [
  | [] ↦ some (pos 0)
  | v ∷ vs ↦ elim (strtol v).1 [
    | c ∷ cs ↦ none
    | [] ↦ (if in_int (strtol v).0 then some (strtol v).0 else none)
  ]
]

abbrev mul64 : ℕ → ℕ → ℕ
mul64 a b = (a * b) % u64_mod

abbrev toupper : ℕ → ℕ
toupper c = if leb 97 c && leb c 122 then c - 32 else c

-- sb_opt_to_size: the digits, and the character behind them.
unfoldable pub scan_size : ℕ → Chars → ℕ × Option ℕ
scan_size res [] = (res, none)
scan_size res (c ∷ s) =
    if ltb c 48 || ltb 57 c then (res, some c) else scan_size (sub64 (add64 (mul64 res 10) c) 48) s

-- 1024 to the place of the modifier in "KMGT"; an unknown one makes the size zero.
unfoldable pub scale_size : ℕ → ℕ → ℕ
scale_size res mult =
    if toupper mult == 75
    then mul64 res 1024
    else if toupper mult == 77
    then mul64 (mul64 res 1024) 1024
    else if toupper mult == 71
    then mul64 (mul64 (mul64 res 1024) 1024) 1024
    else if toupper mult == 84
    then mul64 (mul64 (mul64 (mul64 res 1024) 1024) 1024) 1024
    else 0

-- A modifier counts behind a digit only.
unfoldable pub string_to_size : Chars → ℕ
string_to_size [] = 0
string_to_size (c ∷ s) =
    if ltb c 48 || ltb 57 c
    then 0
    else let (res, next) = scan_size 0 (c ∷ s) in
      elim next [ none ↦ res | some mult ↦ scale_size res mult ]

unfoldable pub opt_to_size : Opt → ℕ
opt_to_size o = elim o.values [ [] ↦ 0 | v ∷ vs ↦ string_to_size v ]
