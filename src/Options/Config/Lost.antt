-- ===== src/Options/Config/Lost.antt =====
-- The name of an option that was written and read back.
use my_sqltutorials.Prelude.{
  ℕ, ◌<◌, ◌≡◌, refl, ap, ◌∙◌, arith, false, none, [], ◌∷◌, ◌++◌, Chars, length, length-append,
  Bool-cases, inl, inr,
}
use my_sqltutorials.Options.{Opt, convert_dashes, find_option, add_option, update_option}
use my_sqltutorials.Options.Names.{IsString, same_name, opt_name_cmp_lem}
use my_sqltutorials.Options.Config.{read_config, write_config}
use my_sqltutorials.Options.Config.RoundTrip.{IsWritable, unwritten, store, read_config-write}

length-convert : (s : Chars) → length (convert_dashes s) ≡ length s
unfolding convert_dashes
length-convert [] = refl
length-convert (c ∷ s) = omega (arith, length-convert s)

convert-IsString : (s : Chars) → IsString s → IsString (convert_dashes s)
unfolding convert_dashes
convert-IsString [] h = tt
convert-IsString (c ∷ s) h = (ground arith, convert-IsString s h.1)

spaced-IsString : (s : Chars) → IsString s → IsString (s ++ 32 ∷ [])
spaced-IsString [] h = (omega arith, tt)
spaced-IsString (c ∷ s) h = (h.0, spaced-IsString s h.1)

-- A name and the name with a space behind it differ, whatever the dashes.
other_name : (s : Chars) → IsString s → same_name (convert_dashes (s ++ 32 ∷ [])) s ≡ false
other_name s h =
    let spaced = s ++ 32 ∷ [] in
    elim (Bool-cases (same_name (convert_dashes spaced) s)) [
      | inr e ↦ e
      | inl e ↦
          let same =
            (opt_name_cmp_lem (convert_dashes spaced) s
                (convert-IsString spaced (spaced-IsString s h)) h).0
              e in
          absurd (
            omega (
              arith,
              ap length same,
              length-convert (convert_dashes spaced),
              length-convert spaced,
              length-convert s,
              length-append s (32 ∷ []),
            ))
    ]

store-lost : (o : Opt) → IsString o.name → find_option (store [] o) o.name ≡ none
unfolding find_option add_option update_option
store-lost o h = ground (arith, other_name o.name h)

-- An option that is written to a file and read back into an empty list is not found under its name.
pub written_lost :
    (o : Opt) (fuel : ℕ)
    → IsWritable o
    → IsString o.name
    → 0 < fuel
    → find_option (read_config fuel (write_config (unwritten (o ∷ []))).0 []).1 o.name ≡ none
written_lost o fuel w h l =
    ap (λ r. find_option r.1 o.name) (read_config-write (o ∷ []) [] fuel (w, tt) l) ∙ store-lost o h
