-- ===== src/Timer/Clock.antt =====
-- TIMESPEC_DIFF and add_ns_to_timespec against the time that a timespec stands for.
use my_sqltutorials.Prelude.{ℕ, ◌+◌, ◌*◌, ◌%◌, ◌<◌, ◌≡◌, ◌≢◌, ◌⊎◌, ap, ◌∙◌, arith, ◌↔◌}
use my_sqltutorials.Prelude.Int.{
  ℤ, pos, negsuc, pos_part, neg_part, ◌+ℤ◌, ◌-ℤ◌, ◌*ℤ◌, ◌/ℤ◌, ◌%ℤ◌, ◌≤ℤ◌, +ℤ_parts, -ℤ_parts,
  int_laws,
}
use my_sqltutorials.Prelude.Words.{u64_mod, to_u64}
use my_sqltutorials.Timer.{Timespec, ns_per_sec, timespec_diff, settle, add_ns}

-- The nanoseconds that a timespec stands for.
unfoldable pub nanos : Timespec → ℤ
nanos t = t.tv_sec *ℤ ns_per_sec +ℤ t.tv_nsec

pub nanos_parts :
    (t : Timespec)
    → pos_part (nanos t) + neg_part t.tv_sec * ns_per_sec + neg_part t.tv_nsec
      ≡ neg_part (nanos t) + pos_part t.tv_sec * ns_per_sec + pos_part t.tv_nsec
unfolding nanos ◌*ℤ◌ ◌+ℤ◌
nanos_parts t = ground arith

-- A conversion to `unsigned long long` is right up to a multiple of 2^64.
to_u64-mod : (z : ℤ) → (to_u64 z + neg_part z) % u64_mod ≡ pos_part z % u64_mod
to_u64-mod (pos n) = omega arith
to_u64-mod (negsuc n) = omega arith

diff_mod :
    (d x y : ℕ) (u v : ℤ)
    → (x + neg_part u) % u64_mod ≡ pos_part u % u64_mod
    → (y + neg_part v) % u64_mod ≡ pos_part v % u64_mod
    → pos_part u * ns_per_sec + pos_part v ≡ d + neg_part u * ns_per_sec + neg_part v
    → d < u64_mod
    → (x * ns_per_sec % u64_mod + y) % u64_mod ≡ d
diff_mod d x y u v hx hy h hd = omega arith

-- Where the time from `b` to `a` is not negative and below 2^64 nanoseconds (584 years),
-- TIMESPEC_DIFF is that time, whatever the fields are.
pub diff_exact :
    (a b : Timespec) (d : ℕ) → nanos a ≡ nanos b +ℤ pos d → d < u64_mod → timespec_diff a b ≡ d
unfolding timespec_diff
diff_exact a b d h hd =
    diff_mod d _ _ (a.tv_sec -ℤ b.tv_sec) (a.tv_nsec -ℤ b.tv_nsec) (to_u64-mod _) (to_u64-mod _)
      (omega (
        arith,
        nanos_parts a,
        nanos_parts b,
        -ℤ_parts a.tv_sec b.tv_sec,
        -ℤ_parts a.tv_nsec b.tv_nsec,
        +ℤ_parts (nanos b) (pos d),
        ap pos_part h,
        ap neg_part h,
      ))
      hd

/ℤ_parts :
    (z : ℤ)
    → pos_part (z /ℤ ns_per_sec) * ns_per_sec + pos_part (z %ℤ ns_per_sec) + neg_part z
      ≡ neg_part (z /ℤ ns_per_sec) * ns_per_sec + neg_part (z %ℤ ns_per_sec) + pos_part z
unfolding ◌/ℤ◌ ◌%ℤ◌
/ℤ_parts (pos n) = ground arith
/ℤ_parts (negsuc n) = ground arith

module _ (s x : ℤ) where
  nanos-carry :
      nanos (record { tv_sec = s +ℤ (x /ℤ ns_per_sec); tv_nsec = x %ℤ ns_per_sec })
      ≡ nanos (record { tv_sec = s; tv_nsec = x })
  nanos-carry = omega (int_laws, nanos_parts, /ℤ_parts x)

  nanos-borrow :
      nanos (record {
        tv_sec = s -ℤ pos 1 +ℤ (x /ℤ ns_per_sec);
        tv_nsec = (x %ℤ ns_per_sec) +ℤ pos ns_per_sec;
      })
      ≡ nanos (record { tv_sec = s; tv_nsec = x })
  nanos-borrow = omega (int_laws, nanos_parts, /ℤ_parts x)

nanos-settle : (t : Timespec) (x : ℤ) → nanos (settle t x) ≡ nanos (record t { tv_nsec = x })
unfolding settle
nanos-settle t x = ground (arith, nanos-carry t.tv_sec x, nanos-borrow t.tv_sec x)

-- `add_ns_to_timespec` adds exactly `delta` nanoseconds, on each of its three branches.
pub nanos-add_ns : (t : Timespec) (delta : ℤ) → nanos (add_ns t delta) ≡ nanos t +ℤ delta
unfolding add_ns
nanos-add_ns t delta = nanos-settle t (t.tv_nsec +ℤ delta) ∙ omega (int_laws, nanos_parts)

-- The second that a timespec has left over, as `add_ns_to_timespec` leaves it for a sum `x`.
abbrev pub IsFullSecond : ℤ → Type 0
IsFullSecond x =
    (x ≡ pos ns_per_sec) ⊎ ((pos_part x ≡ 0) × (neg_part x ≢ 0) × (neg_part x % ns_per_sec ≡ 0))

settle_range :
    (t : Timespec) (x : ℤ)
    → let n = (settle t x).tv_nsec in
      (pos 0 ≤ℤ n) × (n ≤ℤ pos ns_per_sec) × ((n ≡ pos ns_per_sec) ↔ IsFullSecond x)
unfolding settle ◌/ℤ◌ ◌%ℤ◌ ◌+ℤ◌
settle_range t (pos n) = ground arith
settle_range t (negsuc n) = ground arith

-- The nanoseconds that `add_ns_to_timespec` leaves are in [0, 10^9], and they are 10^9 (which is not
-- a valid `tv_nsec`) exactly when the sum is one second or a negative number of whole seconds.
pub tv_nsec-add_ns :
    (t : Timespec) (delta : ℤ)
    → let n = (add_ns t delta).tv_nsec in
      (pos 0 ≤ℤ n)
      × (n ≤ℤ pos ns_per_sec)
      × ((n ≡ pos ns_per_sec) ↔ IsFullSecond (t.tv_nsec +ℤ delta))
unfolding add_ns
tv_nsec-add_ns t delta = settle_range t (t.tv_nsec +ℤ delta)
