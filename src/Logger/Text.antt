-- ===== src/Logger/Text.antt =====
-- The handler of text messages, and what log_text and log_timestamp pass to it. `printf` writes to
-- stdout: each call is a `Line`.
pub mod Repeats
use my_sqltutorials.Prelude.{
  ℕ, zero, suc, ◌+◌, ◌-◌, ◌*◌, ◌/◌, ◌%◌, ◌^◌, ◌≤◌, ◌<◌, ◌≡◌, ◌≢◌, ◌↔◌, ◌⊎◌, inl, inr, refl, ap, sym,
  ◌∙◌, arith, Bool, true, false, not, Option, none, some, List, [], ◌∷◌, ◌++◌, map, ltb, leb, ◌==◌,
  ◌&&◌, ◌||◌, if◌then◌else◌, Bool-cases, length, get_elem?, set, take, drop, replicate,
  length-append, get_elem?-set_ne, get_elem?-set_self, foldr, Chars,
}
use my_sqltutorials.Prelude.Words.{add32}
use my_sqltutorials.Logger.{Printf, log_text_buffer, text_buffer_size}

-- log_msg_priority_t, as a number
abbrev pub log_debug : ℕ
log_debug = 5

-- log_msg_text_t
pub record TextMsg : Type 0 where
  pub priority : ℕ
  pub text : Chars
  pub flags : ℕ

-- LOG_MSG_TEXT_ALLOW_DUPLICATES
abbrev pub allow_duplicates : ℕ
allow_duplicates = 1

pub data Prefix : Type 0 where
  fatal alert warning debug plain : Prefix

unfoldable pub prefix_of : ℕ → Prefix
prefix_of priority =
    if priority == 0
    then fatal
    else if priority == 1
    then alert
    else if priority == 2
    then warning
    else if priority == log_debug
    then debug
    else plain

-- What a call of printf writes: the number of repeats, or a prefix and a text.
pub data Line : Type 0 where
  repeated : ℕ → Line
  shown : Prefix → Chars → Line

-- `sb_globals.verbosity` and the static variables of the handler.
pub record TextLog : Type 0 where
  pub verbosity : ℕ
  pub text_cnt : ℕ
  pub text_buf : Chars

-- For the value of the option as an `unsigned char`; `none` is an invalid value.
unfoldable pub text_handler_init : (verbosity : ℕ) → Option TextLog
text_handler_init verbosity =
    if ltb log_debug verbosity
    then none
    else some (record { verbosity = verbosity; text_cnt = 0; text_buf = [] })

-- strcmp gives zero.
unfoldable pub same_text : Chars → Chars → Bool
same_text [] [] = true
same_text [] (d ∷ t) = false
same_text (c ∷ s) [] = false
same_text (c ∷ s) (d ∷ t) = (c == d) && same_text s t

-- The line that reports the repeats of the last text.
abbrev pub flush : ℕ → List Line
flush text_cnt = if ltb 0 text_cnt then repeated text_cnt ∷ [] else []

abbrev pub show_line : TextMsg → Line
show_line m = shown (prefix_of m.priority) m.text

-- A message with duplicate checks, which is not the last one.
abbrev pub replace : TextMsg → TextLog → List Line × TextLog
replace m s = (
  flush s.text_cnt ++ show_line m ∷ [],
  record s { text_cnt = 0; text_buf = take text_buffer_size m.text },
)

-- `!flags & 1` holds for no flags only.
unfoldable pub text_handler_process : TextMsg → TextLog → List Line × TextLog
text_handler_process m s =
    if ltb s.verbosity m.priority
    then ([], s)
    else if m.flags == 0
    then if same_text s.text_buf m.text
      then ([], record s { text_cnt = add32 s.text_cnt 1 })
      else replace m s
    else (show_line m ∷ [], s)

-- The message of log_text.
abbrev pub log_text_msg : ℕ → Printf → TextMsg
log_text_msg priority printf = record {
  priority = priority;
  text = log_text_buffer printf;
  flags = 0;
}

-- The message of log_timestamp, for its text.
abbrev pub log_timestamp_msg : ℕ → Chars → TextMsg
log_timestamp_msg priority text = record {
  priority = priority;
  text = text;
  flags = allow_duplicates;
}

-- The handler on a list of messages.
unfoldable pub process_all : List TextMsg → TextLog → List Line × TextLog
process_all [] s = ([], s)
process_all (m ∷ ms) s =
    let (ls, t) = text_handler_process m s in let (ls', u) = process_all ms t in (ls ++ ls', u)
