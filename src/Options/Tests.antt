-- ===== src/Options/Tests.antt =====
-- The options at concrete strings: "a-b", "a_b" and "c".
use my_sqltutorials.Prelude.{
  ◌≡◌, inr, refl, arith, Option, none, some, List, [], ◌∷◌, if◌then◌else◌, Chars,
}
use my_sqltutorials.Options.{
  Opt, ArgType, find_option, parse_value, remove_option, string_to_size, tokens, opt_name_cmp,
}
use my_sqltutorials.Options.Names.{IsString, same_name}
use my_sqltutorials.Options.Set.{set_option}
use my_sqltutorials.Options.Lookup.{AllStrings, Distinct, values_of, find-set}
use my_sqltutorials.Options.Size.{size-modifier}

abbrev dashed : Chars
dashed = 97 ∷ 45 ∷ 98 ∷ []

abbrev underscored : Chars
underscored = 97 ∷ 95 ∷ 98 ∷ []

abbrev options : List Opt
options =
    record { name = underscored; type = ArgType.int; values = (49 ∷ []) ∷ [] }
    ∷ record { name = 99 ∷ []; type = ArgType.flag; values = [] }
    ∷ []

dashed-IsString : IsString dashed
dashed-IsString = (omega arith, (omega arith, (omega arith, tt)))

underscored-IsString : IsString underscored
underscored-IsString = (omega arith, (omega arith, (omega arith, tt)))

options-AllStrings : AllStrings options
options-AllStrings = (underscored-IsString, ((omega arith, tt), tt))

options-Distinct : Distinct options
unfolding find_option opt_name_cmp
options-Distinct = (refl, (refl, tt))

-- "a,,b" has two parts.
list_of_two : tokens [] (97 ∷ 44 ∷ 44 ∷ 98 ∷ []) ≡ (97 ∷ []) ∷ (98 ∷ []) ∷ []
unfolding tokens
list_of_two = refl

abbrev no_files : Chars → Option Chars
no_files name = none

find-set_example :
    values_of (set_option no_files options dashed (some (50 ∷ [])) ArgType.int).1 underscored ≡ (
      if same_name dashed underscored
      then some (parse_value ArgType.int (some (50 ∷ [])))
      else values_of options underscored)
find-set_example =
    find-set no_files options dashed underscored (some (50 ∷ [])) ArgType.int (λ e. cc)
      options-AllStrings dashed-IsString underscored-IsString

abbrev left : List Opt
left = record { name = 99 ∷ []; type = ArgType.flag; values = [] } ∷ []

remove_dashed : remove_option options dashed ≡ some left
unfolding remove_option opt_name_cmp
remove_dashed = refl

-- "12k"
size-modifier_example : string_to_size (49 ∷ 50 ∷ 107 ∷ []) ≡ 12288
size-modifier_example =
    size-modifier 49 107 (50 ∷ []) [] ((omega arith, omega arith), ((omega arith, omega arith), tt))
      (inr (omega arith))
