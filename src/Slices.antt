-- ===== src/Slices.antt =====
-- Go's byte slices: the elements up to the length, and those behind it up to the capacity.
use native.Mathlib.Decide.{dec_le}
use ipod.Base.{
  ℕ, ◌+◌, ◌≤◌, ◌<◌, ◌≡◌, ◌∙◌, List, ◌++◌, Result, ok, panic, ◌>>=◌, arith, length, take, drop, leb,
  inl, inr, ◌⊎◌, if◌then◌else◌, length-take, length-append, le→leb, append_assoc, take-append_exact,
  drop-append_exact,
}

pub record Slice : Type 0 where
  pub bytes : List ℕ
  pub spare : List ℕ

-- `s[:n]`, which may reach beyond the length, and panics beyond the capacity.
unfoldable pub reslice : Slice → ℕ → Result Slice
reslice s n =
    let whole = s.bytes ++ s.spare in
    if leb n (length s.bytes + length s.spare)
    then ok (record { bytes = take n whole; spare = drop n whole })
    else panic

-- `s[n:]`, which panics beyond the length.
unfoldable pub slice_from : Slice → ℕ → Result Slice
slice_from s n = if leb n (length s.bytes) then ok (record s { bytes = drop n s.bytes }) else panic

-- `s[lo:hi]`
unfoldable pub sub_slice : Slice → ℕ → ℕ → Result Slice
unfolding reslice slice_from
sub_slice s lo hi = reslice s hi >>= λ t. slice_from t lo

-- A successful `s[:n]` has the length n.
pub length-reslice : (s : Slice) (n : ℕ) {t : Slice} → reslice s n ≡ ok t → length t.bytes ≡ n
unfolding reslice
length-reslice s n e =
    ground (arith, length-take n (s.bytes ++ s.spare), length-append s.bytes s.spare)

pub reslice_beyond : (s : Slice) (n : ℕ) → length s.bytes + length s.spare < n → reslice s n ≡ panic
unfolding reslice
reslice_beyond s n h = ground arith

pub reslice_within :
    (s : Slice) (n : ℕ)
    → n ≤ length s.bytes + length s.spare
    → reslice s n
      ≡ ok (record { bytes = take n (s.bytes ++ s.spare); spare = drop n (s.bytes ++ s.spare) })
unfolding reslice
reslice_within s n h = rw (le→leb _ _ h)

pub slice_from_within :
    (s : Slice) (n : ℕ)
    → n ≤ length s.bytes
    → slice_from s n ≡ ok (record s { bytes = drop n s.bytes })
unfolding slice_from
slice_from_within s n h = rw (le→leb _ _ h)

pub slice_from_beyond : (s : Slice) (n : ℕ) → length s.bytes < n → slice_from s n ≡ panic
unfolding slice_from
slice_from_beyond s n h = ground arith

-- A slice cut where its first part ends.
pub reslice_split :
    (xs ys spare : List ℕ) (n : ℕ)
    → length xs ≡ n
    → reslice (record { bytes = xs ++ ys; spare = spare }) n
      ≡ ok (record { bytes = xs; spare = ys ++ spare })
reslice_split xs ys spare n h =
    reslice_within _ n (omega (arith, length-append xs ys))
    ∙ rw (
      append_assoc xs ys spare,
      take-append_exact n xs (ys ++ spare) h,
      drop-append_exact n xs (ys ++ spare) h,
    )

pub slice_from_split :
    (xs ys spare : List ℕ) (n : ℕ)
    → length xs ≡ n
    → slice_from (record { bytes = xs ++ ys; spare = spare }) n
      ≡ ok (record { bytes = ys; spare = spare })
slice_from_split xs ys spare n h =
    slice_from_within _ n (omega (arith, length-append xs ys)) ∙ rw (drop-append_exact n xs ys h)

pub sub_slice_split :
    (xs ys zs spare : List ℕ) (lo hi : ℕ)
    → length xs ≡ lo
    → lo + length ys ≡ hi
    → sub_slice (record { bytes = xs ++ (ys ++ zs); spare = spare }) lo hi
      ≡ ok (record { bytes = ys; spare = zs ++ spare })
unfolding sub_slice
sub_slice_split xs ys zs spare lo hi h k =
    rw
      (
        ← append_assoc xs ys zs,
        reslice_split (xs ++ ys) zs spare hi (omega (arith, length-append xs ys)),
      )
      (slice_from_split xs ys (zs ++ spare) lo h)

-- `s[:n]` panics, or has the length n.
pub reslice_cases :
    (s : Slice) (n : ℕ)
    → (reslice s n ≡ panic) ⊎ ((t : Slice) × (reslice s n ≡ ok t) × (length t.bytes ≡ n))
reslice_cases s n = elim (dec_le n (length s.bytes + length s.spare)) [
  | yes h ↦ let e = reslice_within s n h in inr (_, e, length-reslice s n e)
  | no h ↦ inl (reslice_beyond s n (omega arith))
]

-- Inside the length a part can always be taken.
pub sub_slice_within :
    (s : Slice) (off len : ℕ)
    → length s.bytes ≡ off + len + 1
    → sub_slice s off (off + len)
      ≡ ok (record {
        bytes = drop off (take (off + len) (s.bytes ++ s.spare));
        spare = drop (off + len) (s.bytes ++ s.spare);
      })
unfolding sub_slice
sub_slice_within s off len h = rw (reslice_within s (off + len) (omega arith)) (
    slice_from_within _ off
      (omega (arith, length-take (off + len) (s.bytes ++ s.spare), length-append s.bytes s.spare)))
