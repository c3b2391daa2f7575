-- ===== src/Options/Names.antt =====
-- Names are compared up to dashes and underscores.
use my_sqltutorials.Prelude.{◌<◌, ◌≡◌, ◌↔◌, refl, arith, Bool, true, [], ◌∷◌, Chars}
use my_sqltutorials.Options.{convert_dashes, opt_name_cmp, is_zero}

-- A C string has no zero before its end.
abbrev pub IsString : Chars → Type 0
IsString [] = Unit {0}
IsString (c ∷ s) = (0 < c) × IsString s

abbrev pub same_name : Chars → Chars → Bool
same_name a b = is_zero (opt_name_cmp a b)

-- opt_name_cmp finds two C strings (with no zero before the end) equal exactly if convert_dashes
-- makes them the same.
pub opt_name_cmp_lem :
    (a b : Chars)
    → IsString a
    → IsString b
    → (same_name a b ≡ true) ↔ (convert_dashes a ≡ convert_dashes b)
unfolding opt_name_cmp convert_dashes
opt_name_cmp_lem [] [] h k = (λ e. refl, λ e. refl)
opt_name_cmp_lem [] (c ∷ b) h k = ground arith
opt_name_cmp_lem (c ∷ a) [] h k = ground arith
opt_name_cmp_lem (c ∷ a) (d ∷ b) h k = ground (arith, opt_name_cmp_lem a b h.1 k.1)
