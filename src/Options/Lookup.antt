-- ===== src/Options/Lookup.antt =====
-- What the list of options holds after it is changed.
use my_sqltutorials.Prelude.{
  ◌≡◌, ◌≢◌, inl, inr, refl, ap, subst, sym, ◌∙◌, arith, Bool, true, false, Option, none, some, List,
  [], ◌∷◌, ◌++◌, if◌then◌else◌, Option-cases, Chars,
}
use my_sqltutorials.Options.{
  Opt, ArgType, convert_dashes, find_option, add_option, update_option, remove_option, parse_value,
  fill, new_option,
}
use my_sqltutorials.Options.Set.{after_file, set_option}
use my_sqltutorials.Options.Names.{IsString, same_name, opt_name_cmp_lem}

abbrev pub AllStrings : List Opt → Type 0
AllStrings [] = Unit {0}
AllStrings (o ∷ os) = IsString o.name × AllStrings os

-- The values of the option that a name finds.
abbrev pub values_of : List Opt → Chars → Option (List Chars)
values_of os name = elim (find_option os name) [ none ↦ none | some o ↦ some o.values ]

convert-IsString : (s : Chars) → IsString s → IsString (convert_dashes s)
unfolding convert_dashes
convert-IsString [] h = tt
convert-IsString (c ∷ s) h = (ground arith, convert-IsString s h.1)

convert_twice : (s : Chars) → convert_dashes (convert_dashes s) ≡ convert_dashes s
unfolding convert_dashes
convert_twice [] = refl
convert_twice (c ∷ s) = ground (arith, convert_twice s)

-- The names that equal one of two equal names equal the other.
same_trans :
    (a b c : Chars)
    → IsString a
    → IsString b
    → IsString c
    → same_name a b ≡ true
    → same_name a c ≡ same_name b c
same_trans a b c h k l e =
    ground (arith, opt_name_cmp_lem a b h k, opt_name_cmp_lem a c h l, opt_name_cmp_lem b c k l)

same_sym : (a b : Chars) → IsString a → IsString b → same_name a b ≡ same_name b a
same_sym a b h k = ground (arith, opt_name_cmp_lem a b h k, opt_name_cmp_lem b a k h)

same_convert :
    (a b : Chars) → IsString a → IsString b → same_name (convert_dashes a) b ≡ same_name a b
same_convert a b h k = ground (
  arith,
  convert_twice a,
  opt_name_cmp_lem a b h k,
  opt_name_cmp_lem (convert_dashes a) b (convert-IsString a h) k,
)

same_self : (a : Chars) → IsString a → same_name a a ≡ true
same_self a h = (opt_name_cmp_lem a a h h).1 refl

values_if :
    (b : Bool) (xs ys : List Opt) (name : Chars)
    → values_of (if b then xs else ys) name ≡ (if b then values_of xs name else values_of ys name)
values_if true xs ys name = refl
values_if false xs ys name = refl

module _ (type : ArgType) (value : Option Chars) (name other : Chars) (n : IsString name)
    (m : IsString other) where
  found-update :
      (os : List Opt)
      → AllStrings os
      → find_option os name ≢ none
      → values_of (update_option (fill type value) os name) other
        ≡ (if same_name name other then some (parse_value type value) else values_of os other)
  unfolding find_option update_option
  found-update [] h k = absurd (k refl)
  found-update (o ∷ os) h k =
      values_if (same_name o.name name) (fill type value o ∷ os)
        (o ∷ update_option (fill type value) os name) other
      ∙ ground (
        arith,
        found-update os h.1,
        same_trans o.name name other h.0 n m,
        same_trans o.name other name h.0 m n,
        same_sym name other n m,
      )

  found-append :
      (os : List Opt)
      → AllStrings os
      → find_option os name ≡ none
      → values_of (update_option (fill type value) (os ++ new_option name ∷ []) name) other
        ≡ (if same_name name other then some (parse_value type value) else values_of os other)
  unfolding find_option update_option
  found-append [] h k =
      ground (arith, same_convert name other n m, same_convert name name n n, same_self name n)
  found-append (o ∷ os) h k =
      let os' = os ++ new_option name ∷ [] in
      values_if (same_name o.name name) (fill type value o ∷ os')
        (o ∷ update_option (fill type value) os' name) other
      ∙ ground (
        arith,
        found-append os h.1,
        same_trans o.name name other h.0 n m,
        same_trans o.name other name h.0 m n,
        same_sym name other n m,
      )

after_file_other :
    (files : Chars → Option Chars) (type : ArgType) (value : Option Chars) (os : List Opt)
    → type ≢ ArgType.file
    → after_file files type value os ≡ os
unfolding after_file
after_file_other files ArgType.null value os ne = refl
after_file_other files ArgType.flag value os ne = refl
after_file_other files ArgType.int value os ne = refl
after_file_other files ArgType.size value os ne = refl
after_file_other files ArgType.float value os ne = refl
after_file_other files ArgType.string value os ne = refl
after_file_other files ArgType.list value os ne = refl
after_file_other files ArgType.file value os ne = absurd (ne refl)

found-set :
    (os : List Opt) (name other : Chars) (value : Option Chars) (type : ArgType)
    → AllStrings os
    → IsString name
    → IsString other
    → values_of (update_option (fill type value) (add_option os name) name) other
      ≡ (if same_name name other then some (parse_value type value) else values_of os other)
unfolding add_option
found-set os name other value type h n m = ground (
  arith,
  found-update type value name other n m os h,
  found-append type value name other n m os h,
)

-- After set_option with a type other than SB_ARG_TYPE_FILE, a name that equals the one set finds
-- the values of the argument, and every other name finds what it found before (where all names are
-- C strings).
pub find-set :
    (files : Chars → Option Chars) (os : List Opt) (name other : Chars) (value : Option Chars)
    (type : ArgType)
    → type ≢ ArgType.file
    → AllStrings os
    → IsString name
    → IsString other
    → values_of (set_option files os name value type).1 other
      ≡ (if same_name name other then some (parse_value type value) else values_of os other)
unfolding set_option
find-set files os name other value type ne h n m =
    ap (λ l. values_of l other) (after_file_other files type value _ ne)
    ∙ found-set os name other value type h n m

-- No two options have one name.
abbrev pub Distinct : List Opt → Type 0
Distinct [] = Unit {0}
Distinct (o ∷ os) = (find_option os o.name ≡ none) × Distinct os

-- Equal names find the same option.
find_same :
    (a b : Chars) (os : List Opt)
    → IsString a
    → IsString b
    → AllStrings os
    → same_name a b ≡ true
    → find_option os a ≡ find_option os b
unfolding find_option
find_same a b [] h k l e = refl
find_same a b (o ∷ os) h k l e = ground (
  arith,
  find_same a b os h k l.1 e,
  same_sym a o.name h l.0,
  same_sym b o.name k l.0,
  same_trans a b o.name h k l.0 e,
)

-- Where the names of the options are distinct C strings, an option that is removed is not found
-- again, and the other names find what they found before.
pub find-remove :
    (os rest : List Opt) (name other : Chars)
    → AllStrings os
    → IsString name
    → IsString other
    → Distinct os
    → remove_option os name ≡ some rest
    → find_option rest other ≡ (if same_name name other then none else find_option os other)
unfolding find_option remove_option
find-remove [] rest name other h n m d e = cc
find-remove (o ∷ os) rest name other h n m d e =
    let turn : same_name o.name name ≡ true → same_name o.name other ≡ same_name name other =
      same_trans o.name name other h.0 n m in
    let turn' : same_name o.name other ≡ true → same_name o.name name ≡ same_name other name =
      same_trans o.name other name h.0 m n in
    elim (Option-cases (remove_option os name)) [
      | inl p ↦ ground (arith, turn, find_same o.name other os h.0 m h.1)
      | inr (os', p) ↦ ground (
        arith,
        turn,
        turn',
        same_sym name other n m,
        find_same o.name other os h.0 m h.1,
        find-remove os os' name other h.1 n m d.1 p,
      )
    ]

find-updated :
    (type : ArgType) (value : Option Chars) (os : List Opt) (name other : Chars)
    → find_option os other ≡ none
    → find_option (update_option (fill type value) os name) other ≡ none
unfolding find_option update_option
find-updated type value [] name other e = refl
find-updated type value (o ∷ os) name other e =
    ground (arith, find-updated type value os name other)

update-Distinct :
    (type : ArgType) (value : Option Chars) (os : List Opt) (name : Chars)
    → Distinct os
    → Distinct (update_option (fill type value) os name)
unfolding update_option
update-Distinct type value [] name d = tt
update-Distinct type value (o ∷ os) name d =
    ground (arith, update-Distinct type value os name d.1, find-updated type value os name o.name)

find-append_other :
    (os : List Opt) (p : Opt) (other : Chars)
    → find_option os other ≡ none
    → same_name p.name other ≡ false
    → find_option (os ++ p ∷ []) other ≡ none
unfolding find_option
find-append_other [] p other e k = ground arith
find-append_other (o ∷ os) p other e k = ground (arith, find-append_other os p other)

append-Distinct :
    (os : List Opt) (name : Chars)
    → AllStrings os
    → IsString name
    → Distinct os
    → find_option os name ≡ none
    → Distinct (os ++ new_option name ∷ [])
unfolding find_option
append-Distinct [] name h n d e = (refl, tt)
append-Distinct (o ∷ os) name h n d e = (
  find-append_other os (new_option name) o.name d.0
      (ground (arith, same_convert name o.name n h.0, same_sym name o.name n h.0)),
  append-Distinct os name h.1 n d.1 (ground arith),
)

added-Distinct :
    (os : List Opt) (name : Chars) (value : Option Chars) (type : ArgType)
    → AllStrings os
    → IsString name
    → Distinct os
    → Distinct (update_option (fill type value) (add_option os name) name)
unfolding add_option
added-Distinct os name value type h n d = ground (
  arith,
  append-Distinct os name h n d,
  update-Distinct type value os name d,
  update-Distinct type value (os ++ new_option name ∷ []) name,
)

-- Where all names are C strings and no file is read, set_option keeps the names distinct: it never adds a second
-- option for a name.
pub set-Distinct :
    (files : Chars → Option Chars) (os : List Opt) (name : Chars) (value : Option Chars)
    (type : ArgType)
    → type ≢ ArgType.file
    → AllStrings os
    → IsString name
    → Distinct os
    → Distinct (set_option files os name value type).1
unfolding set_option
set-Distinct files os name value type ne h n d =
    subst Distinct (sym (after_file_other files type value _ ne))
      (added-Distinct os name value type h n d)
