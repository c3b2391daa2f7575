-- ===== src/Options/Set.antt =====
-- set_option and sb_register_arg_set of sb_options.c. An option of type SB_ARG_TYPE_FILE reads a file:
-- `files` gives the text of a file, or none where fopen fails.
use my_sqltutorials.Prelude.{Bool, true, false, Option, none, some, List, [], ◌∷◌, Chars, length}
use my_sqltutorials.Options.{Opt, Arg, ArgType, add_option, update_option, fill, is_unknown}
use my_sqltutorials.Options.Config.{read_config}

-- The result of read_config is not used. A file has no more lines than characters.
unfoldable pub read_config_file : (files : Chars → Option Chars) → Chars → List Opt → List Opt
read_config_file files filename os = elim (files filename) [
  | none ↦ os
  | some text ↦ (read_config (length text) text os).1
]

-- What the type file does behind the new option.
unfoldable pub after_file :
    (files : Chars → Option Chars) → ArgType → Option Chars → List Opt → List Opt
unfolding read_config_file
after_file files ArgType.file (some (c ∷ v)) os = read_config_file files (c ∷ v) os
after_file files type value os = os

-- The flag is the result 1.
unfoldable pub set_option :
    (files : Chars → Option Chars) → List Opt → Chars → Option Chars → ArgType → Bool × List Opt
unfolding after_file
set_option files os name value type = (
  is_unknown type value,
  after_file files type value (update_option (fill type value) (add_option os name) name),
)

-- Up to the first argument that set_option refuses.
unfoldable pub register_arg_set :
    (files : Chars → Option Chars) → List Arg → List Opt → Bool × List Opt
register_arg_set files [] os = (false, os)
register_arg_set files (a ∷ rest) os =
    let (failed, os') = set_option files os a.arg_name a.arg_value a.arg_type in
    elim failed [ true ↦ (true, os') | false ↦ register_arg_set files rest os' ]
