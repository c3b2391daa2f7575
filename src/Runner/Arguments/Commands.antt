-- ===== src/Runner/Arguments/Commands.antt =====
-- Which command lines are accepted, and what they leave alone.
use my_sqltutorials.Prelude.{
  ◌≡◌, ◌≢◌, ◌⊎◌, inl, inr, ap, sym, ◌∙◌, arith, false, Option, some, List, [], ◌∷◌, if◌then◌else◌,
  Bool-cases, drop, Chars,
}
use my_sqltutorials.Options.{Opt}
use my_sqltutorials.Runner.Arguments.{
  Command, parse_command, is_null, is_option, parse_args, set_argument,
}

-- The arguments that are not options.
abbrev pub words : List Chars → List Chars
words [] = []
words (a ∷ rest) = if is_option a then words rest else a ∷ words rest

-- Behind a command, there is no other, unless the command is `version`.
parse_args-behind :
    (files : Chars → Option Chars) (args : List Chars) (command result : Command)
    (os os' : List Opt)
    → is_null command ≡ false
    → parse_args files args command os ≡ some (result, os')
    → (result ≡ command) × ((command ≡ Command.version) ⊎ (words args ≡ []))
unfolding parse_args
parse_args-behind files [] command result os os' h e = ground arith
parse_args-behind files (a ∷ rest) command result os os' h e =
    ground (
      arith,
      parse_args-behind files rest command result (set_argument files os (drop 2 a)).1 os' h,
    )

not_null : (c : Command) → is_null c ≡ false → c ≢ Command.null
not_null c h e = ground arith

-- A command line that is accepted has at most one word: none, and there is no command, or one that
-- is a command; or its command is `version`, behind which the rest is not read.
pub parse_args-words :
    (files : Chars → Option Chars) (args : List Chars) (result : Command) (os os' : List Opt)
    → parse_args files args Command.null os ≡ some (result, os')
    → (result ≡ Command.version)
      ⊎ (((words args ≡ []) × (result ≡ Command.null))
          ⊎ ((w : Chars) × (words args ≡ w ∷ [])
              × (parse_command w ≡ result)
              × (result ≢ Command.null)))
unfolding parse_args
parse_args-words files [] result os os' e = ground arith
parse_args-words files (a ∷ rest) result os os' e = elim (Bool-cases (is_option a)) [
  | inl o ↦
      let e' : parse_args files rest Command.null (set_argument files os (drop 2 a)).1
          ≡ some (result, os') =
        ground arith in
      rw o (parse_args-words files rest result (set_argument files os (drop 2 a)).1 os' e')
  | inr o ↦
      let named : is_null (parse_command a) ≡ false = ground arith in
      let e' : parse_args files rest (parse_command a) os ≡ some (result, os') = ground arith in
      let (same, last) = parse_args-behind files rest (parse_command a) result os os' named e' in
      let real : result ≢ Command.null = λ z. not_null (parse_command a) named (sym same ∙ z) in
      elim last [
        | inl v ↦ inl (same ∙ v)
        | inr ws ↦ rw o (inr (inr (a, ap (λ l. a ∷ l) ws, sym same, real)))
      ]
]
