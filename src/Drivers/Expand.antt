-- ===== src/Drivers/Expand.antt =====
-- The loop that replaces the `?` of a query, in a buffer that grows: in the `execute` of the drivers,
-- with the text of the values (drivers/mysql/drv_mysql.c, drivers/pgsql/drv_pgsql.c), and in the
-- `prepare` of pgsql, with the names of the parameters.
pub mod Reserves
pub mod Fills
pub mod Sound
use my_sqltutorials.Prelude.{
  ℕ, zero, suc, ◌+◌, ◌-◌, ◌*◌, ◌/◌, ◌%◌, ◌<◌, ◌≡◌, arith, Bool, true, false, Option, none, some,
  List, [], ◌∷◌, ◌++◌, ◌==◌, ltb, leb, ◌||◌, if◌then◌else◌, Chars, length,
}
use my_sqltutorials.Prelude.Int.{ltb_ℤ, pos}
use my_sqltutorials.Prelude.Words.{u32_mod, sub32, signed32}

-- The variables buf, buflen, need_realloc. The position is the length of the text.
pub record Buffer : Type 0 where
  pub text : Chars
  pub buflen : ℕ
  pub need_realloc : Bool

-- How a part of the loop ends. `unbound` is a read behind the array of the values, `overrun` a write
-- behind the buffer, and `spinning` that the fuel ran out.
pub data Outcome : Type 0 where
  done : Buffer → Outcome
  no_memory unbound overrun spinning : Outcome

abbrev pub empty_buffer : Buffer
empty_buffer = record { text = []; buflen = 0; need_realloc = true }

unfoldable pub next_buflen : ℕ → ℕ
next_buflen buflen = if ltb 0 buflen then buflen * 2 % u32_mod else 256

-- Behind the label `again`; `realloc` tells whether it gives a number of bytes.
unfoldable pub reserve : (realloc : ℕ → Bool) → Buffer → Outcome
unfolding next_buflen
reserve realloc b =
    if leb b.buflen (length b.text + 1) || b.need_realloc
    then if realloc (next_buflen b.buflen)
      then done (record b { buflen = next_buflen b.buflen; need_realloc = false })
      else no_memory
    else done b

-- The test of the length that was printed, with `buflen - j` as an `int`.
abbrev pub fits : ℕ → Buffer → Bool
fits n b = ltb_ℤ (pos n) (signed32 (sub32 b.buflen (length b.text)))

unfoldable pub put_char : ℕ → Buffer → Outcome
put_char c b =
    if ltb (length b.text) b.buflen then done (record b { text = b.text ++ c ∷ [] }) else overrun

-- The rest is skipped once an outcome is not `done`.
abbrev pub bind : Outcome → (Buffer → Outcome) → Outcome
bind (done b) f = f b
bind no_memory f = no_memory
bind unbound f = unbound
bind overrun f = overrun
bind spinning f = spinning

-- Prints a value, again in a longer buffer until it fits.
unfoldable pub put_value : (fuel : ℕ) → (ℕ → Bool) → Option Chars → Buffer → Outcome
put_value zero realloc value b = spinning
put_value (suc fuel) realloc value b = bind (reserve realloc b) (λ r. elim value [
  | none ↦ unbound
  | some t ↦ elim (fits (length t) r) [
    | true ↦ done (record r { text = r.text ++ t })
    | false ↦ put_value fuel realloc (some t) (record r { need_realloc = true })
  ]
])

-- From 256 bytes the length wraps after 24 doublings.
abbrev pub retries : ℕ
retries = 32

-- One character of the query; `vcnt` is the number of the next value.
unfoldable pub put_next : (ℕ → Bool) → (ℕ → Option Chars) → (vcnt c : ℕ) → Buffer → Outcome
unfolding put_char put_value reserve
put_next realloc value vcnt c b =
    if c == 63
    then put_value retries realloc (value vcnt) b
    else bind (reserve realloc b) (put_char c)

-- The loop over the query, and the zero behind the text.
unfoldable pub expand :
    (realloc : ℕ → Bool) → (value : ℕ → Option Chars) → (vcnt : ℕ) → Chars → Buffer → Outcome
unfolding put_next
expand realloc value vcnt [] b = if ltb (length b.text) b.buflen then done b else overrun
expand realloc value vcnt (c ∷ query) b =
    bind (put_next realloc value vcnt c b)
      (expand realloc value (if c == 63 then vcnt + 1 else vcnt) query)

-- Each `?` replaced by the text of the next value; `none` where there is no such value.
unfoldable pub substitute : (value : ℕ → Option Chars) → (vcnt : ℕ) → Chars → Option Chars
substitute value vcnt [] = some []
substitute value vcnt (c ∷ query) = elim (if c == 63 then value vcnt else some (c ∷ [])) [
  | none ↦ none
  | some t ↦ elim (substitute value (if c == 63 then vcnt + 1 else vcnt) query) [
    | none ↦ none
    | some rest ↦ some (t ++ rest)
  ]
]
