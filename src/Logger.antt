-- ===== src/Logger.antt =====
-- sysbench-0.5/sysbench/sb_logger.c and sb_logger.h: the handlers of a message and the text of a message.
-- The printf functions are outside the program: a call for a size gives its result and the string that
-- it leaves in a buffer of that size.
pub mod Text
pub mod Oper
pub mod Dispatch
pub mod Buffers
mod Tests
use my_sqltutorials.Prelude.{
  ℕ, zero, suc, ◌+◌, ◌-◌, ◌*◌, ◌/◌, ◌%◌, ◌^◌, ◌≤◌, ◌<◌, ◌≡◌, ◌≢◌, ◌↔◌, ◌⊎◌, inl, inr, refl, ap, sym,
  ◌∙◌, arith, Bool, true, false, not, Option, none, some, List, [], ◌∷◌, ◌++◌, map, ltb, leb, ◌==◌,
  ◌&&◌, ◌||◌, if◌then◌else◌, Bool-cases, length, get_elem?, get_or, set, take, drop, replicate,
  length-append, get_elem?-set_ne, get_elem?-set_self, foldr, Chars,
}
use my_sqltutorials.Prelude.Int.{ℤ, pos, negsuc}

-- One call of snprintf, for the size of the buffer.
abbrev pub Printf : Type 0
Printf = ℕ → ℤ × Chars

-- TEXT_BUFFER_SIZE
abbrev pub text_buffer_size : ℕ
text_buffer_size = 4096

abbrev pub newline : Chars
newline = 10 ∷ []

-- The characters that log_text counts: an error, and a text that does not fit, fill the buffer.
abbrev pub clip : ℤ → ℕ → ℕ
clip (pos n) maxlen = if leb maxlen n then maxlen else n
clip (negsuc n) maxlen = maxlen

-- A text and the end of its line, in a buffer of size `maxlen`.
unfoldable pub end_line : ℤ × Chars → ℕ → Chars
end_line (n, buf) maxlen = buf ++ take (maxlen - clip n maxlen - 1) newline

-- The buffer of log_text.
unfoldable pub log_text_buffer : Printf → Chars
log_text_buffer printf = end_line (printf text_buffer_size) text_buffer_size

-- The buffer of log_timestamp, whose first call prints the time; `none` is a negative length.
unfoldable pub stamp : ℤ × Chars → Printf → Option Chars
stamp (negsuc n, buf) printf = none
stamp (pos n, buf) printf =
    if ltb text_buffer_size n
    then none
    else some (buf ++ end_line (printf (text_buffer_size - n)) (text_buffer_size - n))

unfoldable pub log_timestamp_buffer : (time printf : Printf) → Option Chars
unfolding stamp
log_timestamp_buffer time printf = stamp (time text_buffer_size) printf

-- log_errno drops a message, writes behind its buffer, or passes a text to log_text.
pub data Errno : Type 0 where
  drops overflows : Errno
  logs : Chars → Errno

unfoldable pub add_error : ℤ × Chars → (tail : Printf) → Errno
add_error (negsuc n, buf) tail = drops
add_error (pos n, buf) tail =
    if n == text_buffer_size
    then drops
    else if ltb text_buffer_size n
    then overflows
    else logs (buf ++ (tail (text_buffer_size - n)).1)

unfoldable pub log_errno : Printf → (tail : Printf) → Errno
unfolding add_error
log_errno printf tail = add_error (printf text_buffer_size) tail

-- A message of a type, and log_handler_t with the state that its functions act on; the result of
-- `init` is whether it fails.
pub record Message {ℓ} (D : Type ℓ) : Type ℓ where
  pub type : ℕ
  pub msg_data : D

pub record Handler {ℓ} (S D : Type ℓ) : Type ℓ where
  pub init : Option (S → Bool × S)
  pub process : Option (Message D → S → S)
  pub done : Option (S → S)

-- LOG_MSG_TYPE_TEXT, LOG_MSG_TYPE_OPER, LOG_MSG_TYPE_MAX
abbrev pub type_text : ℕ
type_text = 1

abbrev pub type_oper : ℕ
type_oper = 2

abbrev pub type_max : ℕ
type_max = 3

-- The chain of handlers of each type.
abbrev pub Chains {ℓ} : Type ℓ → Type ℓ → Type ℓ
Chains S D = List (List (Handler S D))

module _ {ℓ} {S D : Type ℓ} where
  -- The flag is the error of a type that there is not. The arguments of the handler are options.
  unfoldable pub log_add_handler : ℕ → Handler S D → Chains S D → Bool × Chains S D
  log_add_handler type handler chains =
      if leb type 0 || leb type_max type
      then (true, chains)
      else (false, set chains type (get_or chains type [] ++ handler ∷ []))

  unfoldable pub log_register : (text_handler oper_handler : Handler S D) → Chains S D
  log_register text_handler oper_handler =
      (log_add_handler type_oper oper_handler
        (log_add_handler type_text text_handler (replicate type_max [])).1).1

  -- The handlers of one chain, up to the first whose `init` fails.
  unfoldable pub init_chain : List (Handler S D) → S → Bool × S
  init_chain [] s = (false, s)
  init_chain (h ∷ hs) s = elim h.init [
    | none ↦ init_chain hs s
    | some f ↦ let (failed, t) = f s in elim failed [ true ↦ (true, t) | false ↦ init_chain hs t ]
  ]

  -- The result is the flag of an error and the flag `initialized`, which was false.
  unfoldable pub log_init : Chains S D → S → Bool × S
  log_init [] s = (false, s)
  log_init (c ∷ cs) s =
      let (failed, t) = init_chain c s in elim failed [ true ↦ (true, t) | false ↦ log_init cs t ]

  -- The caller clears `initialized`.
  unfoldable pub done_chain : List (Handler S D) → S → S
  done_chain [] s = s
  done_chain (h ∷ hs) s = elim h.done [ none ↦ done_chain hs s | some f ↦ done_chain hs (f s) ]

  unfoldable pub log_done : Chains S D → S → S
  log_done [] s = s
  log_done (c ∷ cs) s = log_done cs (done_chain c s)

  unfoldable pub process_chain : List (Handler S D) → Message D → S → S
  process_chain [] msg s = s
  process_chain (h ∷ hs) msg s = elim h.process [
    | none ↦ process_chain hs msg s
    | some f ↦ process_chain hs msg (f msg s)
  ]

  unfoldable pub log_msg : Chains S D → Message D → S → S
  log_msg chains msg s = process_chain (get_or chains msg.type []) msg s
