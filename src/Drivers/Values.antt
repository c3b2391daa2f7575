-- ===== src/Drivers/Values.antt =====
-- The values that are bound to a statement and their text (db_bind_t of db_driver.h and db_print_value
-- of db_driver.c).
use my_sqltutorials.Prelude.{
  ℕ, zero, suc, ◌+◌, ◌/◌, ◌%◌, ◌<◌, ◌≡◌, ◌∙◌, ap, arith, Bool, true, false, Option, [], ◌∷◌, ◌++◌,
  ◌==◌, ltb, if◌then◌else◌, Chars, length, Bool-cases, inl, inr,
}
use mathlib.Core.Option.{some}
use my_sqltutorials.Prelude.Int.{ℤ, pos, negsuc}
use my_sqltutorials.Prelude.Words.{signed32}
use my_sqltutorials.Options.Size.{decimal}

-- db_bind_type_t
pub data BindType : Type 0 where
  none tinyint smallint int bigint float double time date datetime timestamp char varchar : BindType

-- db_time_t
pub record DbTime : Type 0 where
  pub year : ℕ
  pub month : ℕ
  pub day : ℕ
  pub hour : ℕ
  pub minute : ℕ
  pub second : ℕ

-- db_bind_t. `is_null` is the flag behind the pointer, if there is a pointer. The other fields are
-- what `buffer` holds, read at the types that it can have: an integer, the text that "%f" prints of
-- a number, a string, and a time.
pub record Bind : Type 0 where
  pub type : BindType
  pub is_null : Option Bool
  pub integer : ℤ
  pub real : Chars
  pub string : Chars
  pub time_value : DbTime

-- "%u": the digits of a number, before those that are there.
unfoldable pub digits : (fuel : ℕ) → ℕ → Chars → Chars
digits zero n out = out
digits (suc fuel) n out =
    let more = digits fuel (n / 10) ((48 + n % 10) ∷ out) in
    if n / 10 == 0 then (48 + n % 10) ∷ out else more

unfoldable pub print_nat : ℕ → Chars
unfolding digits
print_nat n = digits (suc n) n []

-- "%d"
unfoldable pub print_int : ℤ → Chars
unfolding print_nat
print_int (pos n) = print_nat n
print_int (negsuc n) = 45 ∷ print_nat (suc n)

-- A field of db_time_t is unsigned, and is printed as an `int`.
abbrev field : ℕ → Chars
field n = print_int (signed32 n)

abbrev quote : Chars → Chars
quote s = 39 ∷ (s ++ 39 ∷ [])

unfoldable pub print_date : DbTime → Chars
unfolding print_int
print_date t = field t.year ++ (45 ∷ (field t.month ++ (45 ∷ field t.day)))

unfoldable pub print_time : DbTime → Chars
unfolding print_int
print_time t = field t.hour ++ (58 ∷ (field t.minute ++ (58 ∷ field t.second)))

abbrev pub null_text : Chars
null_text = 78 ∷ 85 ∷ 76 ∷ 76 ∷ []

-- The text for a type, where the value is not null.
unfoldable pub typed_text : BindType → Bind → Chars
unfolding print_int print_date print_time
typed_text BindType.tinyint v = print_int v.integer
typed_text BindType.smallint v = print_int v.integer
typed_text BindType.int v = print_int v.integer
typed_text BindType.bigint v = print_int v.integer
typed_text BindType.float v = v.real
typed_text BindType.double v = v.real
typed_text BindType.char v = quote v.string
typed_text BindType.varchar v = quote v.string
typed_text BindType.date v = quote (print_date v.time_value)
typed_text BindType.time v = quote (print_time v.time_value)
typed_text BindType.datetime v = quote (print_date v.time_value ++ (32 ∷ print_time v.time_value))
typed_text BindType.timestamp v = quote (print_date v.time_value ++ (32 ∷ print_time v.time_value))
typed_text BindType.none v = []

unfoldable pub value_text : Bind → Chars
unfolding typed_text
value_text v = elim v.is_null [
  | some true ↦ null_text
  | some false ↦ typed_text v.type v
  | Option.none ↦ typed_text v.type v
]

-- The text that is printed into a buffer of a length; `none` is the result -1.
unfoldable pub db_print_value : Bind → (buflen : ℕ) → Option Chars
unfolding value_text
db_print_value v buflen =
    if ltb (length (value_text v)) buflen then some (value_text v) else Option.none

decimal-digits :
    (fuel n : ℕ) (out : Chars) → n < fuel → decimal 0 (digits fuel n out) ≡ decimal n out
unfolding digits
decimal-digits zero n out h = absurd (omega arith)
decimal-digits (suc fuel) n out h =
    let last : decimal (n / 10) ((48 + n % 10) ∷ out) ≡ decimal n out =
      ap (λ (m : ℕ). decimal m out) (omega arith) in
    elim (Bool-cases (n / 10 == 0)) [
      | inl e ↦ rw e (ap (λ (m : ℕ). decimal m out) (ground arith))
      | inr e ↦ rw e (decimal-digits fuel (n / 10) ((48 + n % 10) ∷ out) (ground arith) ∙ last)
    ]

-- The printed digits of a number show it.
pub decimal-print_nat : (n : ℕ) → decimal 0 (print_nat n) ≡ n
unfolding print_nat
decimal-print_nat n = decimal-digits (suc n) n [] (omega arith)
