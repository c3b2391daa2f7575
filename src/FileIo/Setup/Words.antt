-- ===== src/FileIo/Setup/Words.antt =====
-- The values of the options that are words (parse_arguments of sb_fileio.c).
use my_sqltutorials.Prelude.{[], ◌∷◌, Chars}

-- "seqwr"
abbrev pub word_seqwr : Chars
word_seqwr = 115 ∷ 101 ∷ 113 ∷ 119 ∷ 114 ∷ []

-- "seqrewr"
abbrev pub word_seqrewr : Chars
word_seqrewr = 115 ∷ 101 ∷ 113 ∷ 114 ∷ 101 ∷ 119 ∷ 114 ∷ []

-- "seqrd"
abbrev pub word_seqrd : Chars
word_seqrd = 115 ∷ 101 ∷ 113 ∷ 114 ∷ 100 ∷ []

-- "rndrd"
abbrev pub word_rndrd : Chars
word_rndrd = 114 ∷ 110 ∷ 100 ∷ 114 ∷ 100 ∷ []

-- "rndwr"
abbrev pub word_rndwr : Chars
word_rndwr = 114 ∷ 110 ∷ 100 ∷ 119 ∷ 114 ∷ []

-- "rndrw"
abbrev pub word_rndrw : Chars
word_rndrw = 114 ∷ 110 ∷ 100 ∷ 114 ∷ 119 ∷ []

-- "sync"
abbrev pub word_sync : Chars
word_sync = 115 ∷ 121 ∷ 110 ∷ 99 ∷ []

-- "async"
abbrev pub word_async : Chars
word_async = 97 ∷ 115 ∷ 121 ∷ 110 ∷ 99 ∷ []

-- "mmap"
abbrev pub word_mmap : Chars
word_mmap = 109 ∷ 109 ∷ 97 ∷ 112 ∷ []

-- "dsync"
abbrev pub word_dsync : Chars
word_dsync = 100 ∷ 115 ∷ 121 ∷ 110 ∷ 99 ∷ []

-- "direct"
abbrev pub word_direct : Chars
word_direct = 100 ∷ 105 ∷ 114 ∷ 101 ∷ 99 ∷ 116 ∷ []

-- "fsync"
abbrev pub word_fsync : Chars
word_fsync = 102 ∷ 115 ∷ 121 ∷ 110 ∷ 99 ∷ []

-- "fdatasync"
abbrev pub word_fdatasync : Chars
word_fdatasync = 102 ∷ 100 ∷ 97 ∷ 116 ∷ 97 ∷ 115 ∷ 121 ∷ 110 ∷ 99 ∷ []
