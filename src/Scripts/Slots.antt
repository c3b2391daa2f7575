-- ===== src/Scripts/Slots.antt =====
-- What an execution stores in one parameter, and what then stands behind its pointers.
use my_sqltutorials.Prelude.{
  some_injective, ◌>>=◌, >>=-some, ℕ, suc, ◌≡◌, refl, ap, arith, Bool, true, false, Option, none,
  some, List, [], ◌∷◌, ◌++◌, ltb, ◌||◌, Chars, length, take, drop, length-replicate, sym, ◌∙◌,
  subst, append_nil, Bool-cases, inl, inr,
}
use my_sqltutorials.Prelude.Int.{ℤ}
use my_sqltutorials.Db.Bulk.Batches.{take-all}
use my_sqltutorials.Scripts.{
  LuaNumber, to_int, LuaValue, nil, number, string, other, Lua, Slot, int_slot, char_slot, Param,
  Bound, bound_null, bound_int, bound_char, Seen, integer, bytes, seen, strncpy, store_text,
  set_slot, set_value, rebind_slot,
}

-- luaL_checknumber and luaL_checkstring give the values of their types.
pub record IsChecking (lua : Lua) : Type 0 where
  pub numbers : (n : LuaNumber) → lua.checknumber (number n) ≡ some n
  pub strings : (s : Chars) → lua.checkstring (string s) ≡ some s

pub data Kind : Type 0 where
  int_kind char_kind : Kind

abbrev pub kind : Slot → Kind
kind (int_slot n) = int_kind
kind (char_slot buf buflen content) = char_kind

-- The value of a table, where it has the type of the parameter: a text is sent as strncpy copies it.
unfoldable pub wanted : Kind → LuaValue → Option Seen
wanted int_kind (number n) = do i ← to_int n; some (integer i)
wanted char_kind (string s) = some (bytes (strncpy s))
wanted k v = none

unfoldable pub all_wanted : (get : ℤ → LuaValue) → List (ℤ × Kind) → Option (List Seen)
unfolding wanted
all_wanted get [] = some []
all_wanted get ((id, k) ∷ shape) = do
  w ← wanted k (get id)
  ws ← all_wanted get shape
  some (w ∷ ws)

-- The keys and the types of the parameters.
unfoldable pub shape : List Param → List (ℤ × Kind)
shape [] = []
shape (p ∷ ps) = (p.id, kind p.slot) ∷ shape ps

-- A db_bind_t points to the buffer of its parameter.
unfoldable pub Fits : Bound → Slot → Type 0
Fits bound_int (int_slot n) = Unit {0}
Fits (bound_char a) (char_slot buf buflen content) = a ≡ buf
Fits b slot = ⊥

unfoldable pub AllFit : List Bound → List Param → Type 0
unfolding Fits
AllFit [] [] = Unit {0}
AllFit (b ∷ bs) (p ∷ ps) = Fits b p.slot × AllFit bs ps
AllFit bs ps = ⊥

length-strncpy : (s : Chars) → length (strncpy s) ≡ length s
unfolding strncpy
length-strncpy [] = refl
length-strncpy (c ∷ s) = ground (arith, length-strncpy s, length-replicate {A = ℕ} (length s) 0)

take-strncpy : (s rest : Chars) → take (length s) (strncpy s ++ rest) ≡ strncpy s
take-strncpy s rest =
    ap (λ n. take n (strncpy s ++ rest)) (sym (length-strncpy s)) ∙ take-all (strncpy s) rest

pub take-whole : (s : Chars) → take (length s) (strncpy s) ≡ strncpy s
take-whole s = ap (take (length s)) (sym (append_nil (strncpy s))) ∙ take-strncpy s []

-- A text that is longer than the one before.
unfoldable pub is_longer : LuaValue → Slot → Bool
is_longer (string s) (char_slot buf buflen content) = ltb buflen (length s)
is_longer v slot = false

unfoldable pub any_longer : (get : ℤ → LuaValue) → List Param → Bool
unfolding is_longer
any_longer get [] = false
any_longer get (p ∷ ps) = is_longer (get p.id) p.slot || any_longer get ps

-- A slot after its value `w` is stored, and the flag of needs_rebind.
pub record IsStored (v : LuaValue) (before after : Slot) (flag : Bool) (w : Seen) : Type 0 where
  pub same_kind : kind after ≡ kind before
  pub fits : Fits (rebind_slot false after) after
  pub kept : flag ≡ false → (b : Bound) → Fits b before → Fits b after
  pub moved : is_longer v before ≡ true → flag ≡ true
  pub reads : (b : Bound) → Fits b after → seen b false after ≡ w

seen-int : (b : Bound) (n : ℤ) → Fits b (int_slot n) → seen b false (int_slot n) ≡ integer n
unfolding seen Fits
seen-int bound_int n f = refl
seen-int bound_null n f = absurd f
seen-int (bound_char a) n f = absurd f

seen-char :
    (b : Bound) (buf buflen : ℕ) (content : Chars)
    → Fits b (char_slot buf buflen content)
    → seen b false (char_slot buf buflen content) ≡ bytes (take buflen content)
unfolding seen Fits
seen-char bound_int buf buflen content f = absurd f
seen-char bound_null buf buflen content f = absurd f
seen-char (bound_char a) buf buflen content f = ground (arith, f)

fits_int : (b : Bound) (m n : ℤ) → Fits b (int_slot m) → Fits b (int_slot n)
unfolding Fits
fits_int bound_int m n f = f
fits_int bound_null m n f = f
fits_int (bound_char a) m n f = f

fits_char :
    (b : Bound) (buf m n : ℕ) (s t : Chars)
    → Fits b (char_slot buf m s)
    → Fits b (char_slot buf n t)
unfolding Fits
fits_char bound_int buf m n s t f = f
fits_char bound_null buf m n s t f = f
fits_char (bound_char a) buf m n s t f = f

int-IsStored :
    (x : LuaNumber) (m n : ℤ) → IsStored (number x) (int_slot m) (int_slot n) false (integer n)
unfolding rebind_slot Fits is_longer
int-IsStored x m n = record {
  same_kind = refl;
  fits = tt;
  kept = λ e b f. fits_int b m n f;
  moved = λ e. absurd (ground arith);
  reads = λ b f. seen-int b n f;
}

text-IsStored :
    (s : Chars) (buf buflen : ℕ) (content : Chars)
    → let r = store_text s buf buflen content in
      IsStored (string s) (char_slot buf buflen content) r.0 r.1 (bytes (strncpy s))
unfolding store_text rebind_slot Fits is_longer
text-IsStored s buf buflen content = elim (Bool-cases (ltb buflen (length s))) [
  | inl e ↦ rw e (record {
    same_kind = refl;
    fits = refl;
    kept = λ z. absurd (ground arith);
    moved = λ z. refl;
    reads = λ b f. seen-char b (suc buf) (length s) (strncpy s) f ∙ ap bytes (take-whole s);
  })
  | inr e ↦ rw e (record {
    same_kind = refl;
    fits = refl;
    moved = λ z. absurd (ground (arith, e, z));
    kept =
        λ z b f. fits_char b buf buflen (length s) content (strncpy s ++ drop (length s) content) f;
    reads = λ b f.
        seen-char b buf (length s) (strncpy s ++ drop (length s) content) f
        ∙ ap bytes (take-strncpy s (drop (length s) content));
  })
]

-- What the loop of sb_lua_db_execute does to one parameter.
pub value_lem :
    (lua : Lua)
    → IsChecking lua
    → (v : LuaValue) (is_null : Bool) (slot : Slot) (w : Seen) → wanted (kind slot) v ≡ some w
    → (after : Slot) × (flag : Bool) × (set_value lua v is_null slot ≡ some (false, after, flag))
      × IsStored v slot after flag w
unfolding wanted set_value set_slot
value_lem lua c (number n) is_null (int_slot m) w e =
    let (i, p, q) = >>=-some (to_int n) (λ i. some (integer i)) w e in
    (
      int_slot i,
      false,
      rw (c.numbers n) (rw p refl),
      subst (IsStored (number n) (int_slot m) (int_slot i) false) (some_injective q)
          (int-IsStored n m i),
    )
value_lem lua c (string s) is_null (char_slot buf buflen content) w e =
    let r = store_text s buf buflen content in
    (
      r.0,
      r.1,
      rw (c.strings s) refl,
      subst (IsStored (string s) (char_slot buf buflen content) r.0 r.1) (some_injective e)
          (text-IsStored s buf buflen content),
    )
value_lem lua c nil is_null (int_slot m) w e = absurd (ground arith)
value_lem lua c nil is_null (char_slot buf buflen content) w e = absurd (ground arith)
value_lem lua c other is_null (int_slot m) w e = absurd (ground arith)
value_lem lua c other is_null (char_slot buf buflen content) w e = absurd (ground arith)
value_lem lua c (number n) is_null (char_slot buf buflen content) w e = absurd (ground arith)
value_lem lua c (string s) is_null (int_slot m) w e = absurd (ground arith)
