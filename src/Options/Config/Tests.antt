-- ===== src/Options/Config/Tests.antt =====
-- The file "a = 1, 2" at work.
use my_sqltutorials.Prelude.{◌≡◌, refl, arith, true, false, some, [], ◌∷◌}
use my_sqltutorials.Options.{
  Opt, ArgType, find_option, add_option, update_option, opt_name_cmp, convert_dashes,
}
use my_sqltutorials.Logger.Text.{same_text}
use my_sqltutorials.Options.Config.{
  write_option, write_config, read_config, read_line, remove_value, span,
}
use my_sqltutorials.Options.Config.RoundTrip.{IsWritable, unwritten, store_all, read_config-write}

abbrev two_values : Opt
two_values = record { name = 97 ∷ []; type = ArgType.list; values = (49 ∷ []) ∷ (50 ∷ []) ∷ [] }

written_two : write_option two_values ≡ 97 ∷ 32 ∷ 61 ∷ 32 ∷ 49 ∷ 44 ∷ 32 ∷ 50 ∷ 10 ∷ []
unfolding write_option
written_two = refl

-- a='1' 2 keeps the first value only: the text behind a quoted one is passed over.
quoted_line :
    read_line (97 ∷ 61 ∷ 39 ∷ 49 ∷ 39 ∷ 32 ∷ 50 ∷ 10 ∷ []) []
    ≡ (false, record { name = 97 ∷ []; type = ArgType.null; values = (49 ∷ []) ∷ [] } ∷ [])
unfolding read_line add_option update_option opt_name_cmp convert_dashes span find_option
quoted_line = refl

-- a="1 has no end.
open_line :
    read_line (97 ∷ 61 ∷ 34 ∷ 49 ∷ 10 ∷ []) []
    ≡ (true, record { name = 97 ∷ []; type = ArgType.null; values = [] } ∷ [])
unfolding read_line add_option update_option opt_name_cmp convert_dashes span find_option
open_line = refl

remove_second : remove_value two_values.values (50 ∷ []) ≡ some ((49 ∷ []) ∷ [])
unfolding remove_value same_text
remove_second = refl

two_values-IsWritable : IsWritable two_values
unfolding write_option
two_values-IsWritable =
    ((refl, tt), (refl, tt), ((refl, (refl, tt)), ((refl, (refl, tt)), tt)), omega arith)

read_config-write_example :
    read_config 1 (write_config (unwritten (two_values ∷ []))).0 []
    ≡ (false, store_all [] (two_values ∷ []))
read_config-write_example =
    read_config-write (two_values ∷ []) [] 1 (two_values-IsWritable, tt) (omega arith)
