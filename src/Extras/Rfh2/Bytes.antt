-- ===== src/Extras/Rfh2/Bytes.antt =====
-- Numbers of four bytes, and slices of bytes that are written one after the other.
use grizzly.Common.{
  ℕ, zero, suc, ◌+◌, ◌-◌, ◌/◌, ◌<◌, ◌≤◌, ◌≡◌, refl, ap, true, ◌++◌, some, arith, ltb, length, drop,
  length-append, take-length_append, drop-length_append, append_assoc,
}
use grizzly.Common.Int.{pos}
use grizzly.Extras.Rfh2.{Bytes, little_endian, from_little_endian, unpack_l, slice_index, slice}

pub length-little_endian : (k n : ℕ) → length (little_endian k n) ≡ k
unfolding little_endian
length-little_endian zero n = refl
length-little_endian (suc k) n = ap suc (length-little_endian k (n / 256))

-- The last byte of four holds what is left.
from_little_endian-little_endian :
    (n : ℕ) → n < 0x80000000 → from_little_endian (little_endian 4 n) ≡ n
unfolding little_endian from_little_endian
from_little_endian-little_endian n h = omega arith

pub unpack_l-little_endian :
    (n : ℕ) → ltb n 0x80000000 ≡ true → unpack_l (little_endian 4 n) ≡ some (pos n)
unfolding unpack_l
unpack_l-little_endian n h =
    let value : from_little_endian (little_endian 4 n) ≡ n =
      from_little_endian-little_endian n (ground arith) in
    rw (length-little_endian 4 n, value, h) refl

slice_index_le : (size i : ℕ) → i ≤ size → slice_index size (pos i) ≡ i
unfolding slice_index
slice_index_le size i h = ground arith

-- The slice between what stands before and what stands behind.
pub slice-between :
    (before middle behind : Bytes) (i j : ℕ)
    → i ≡ length before
    → j ≡ length before + length middle
    → slice (before ++ (middle ++ behind)) (pos i) (pos j) ≡ middle
unfolding slice
slice-between before middle behind i j starts ends =
    let size : length (before ++ (middle ++ behind))
        ≡ length before + (length middle + length behind) =
      omega (arith, length-append before (middle ++ behind), length-append middle behind) in
    let from : slice_index (length (before ++ (middle ++ behind))) (pos i) ≡ length before =
      rw (slice_index_le (length (before ++ (middle ++ behind))) i (omega (arith, size))) starts in
    let to : slice_index (length (before ++ (middle ++ behind))) (pos j)
        ≡ length before + length middle =
      rw (slice_index_le (length (before ++ (middle ++ behind))) j (omega (arith, size))) ends in
    let middle_size : length before + length middle - length before ≡ length middle = omega arith in
    rw
      (
        from,
        to,
        middle_size,
        drop-length_append before (middle ++ behind),
        take-length_append middle behind,
      )
      refl

pub drop-length_both :
    (before middle behind : Bytes)
    → drop (length before + length middle) (before ++ (middle ++ behind)) ≡ behind
drop-length_both before middle behind =
    rw (← append_assoc before middle behind, ← length-append before middle)
      (drop-length_append (before ++ middle) behind)
