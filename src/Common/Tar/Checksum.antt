-- ===== src/Common/Tar/Checksum.antt =====
-- The checksum of a tar header fits its field, and the header as a whole.
use ervan.Base.{
  ℕ, zero, suc, ◌+◌, ◌-◌, ◌*◌, ◌/◌, ◌%◌, ◌^◌, ◌≤◌, ◌<◌, ◌≡◌, refl, ap, ◌∙◌, All, Bytes, length,
  take, drop, replicate, [], ◌∷◌, ◌++◌, arith,
}
use ervan.Common.Tar.{
  octal_digits, tar_write_number, tar_write_text, sum_bytes, before_checksum, behind_checksum,
  filled,
}
use ervan.Common.Tar.Header.{
  filled-take, filled-drop, read_octal, spaced, length-filled, read-size, read-now, read-checksum,
}

-- The sum of the bytes.
abbrev pub total : Bytes → ℕ
total [] = 0
total (c ∷ s) = c + total s

sum_bytes-total : (s : Bytes) → sum_bytes s ≡ total s
unfolding sum_bytes
sum_bytes-total [] = refl
sum_bytes-total (c ∷ s) = ap (λ n. c + n) (sum_bytes-total s)

total-append : (a b : Bytes) → total (a ++ b) ≡ total a + total b
total-append [] b = omega arith
total-append (c ∷ a) b = omega (arith, total-append a b)

-- The first byte behind the checksum's digits is the last one of its field.
total-behind :
    total (replicate 7 b' ' ++ behind_checksum) ≡ 8 * b' ' + total (drop 1 behind_checksum)
unfolding behind_checksum
total-behind = omega arith

sum_bytes-append : (a b : Bytes) → sum_bytes (a ++ b) ≡ sum_bytes a + sum_bytes b
unfolding sum_bytes
sum_bytes-append [] b = omega arith
sum_bytes-append (c ∷ a) b = omega (arith, sum_bytes-append a b)

sum_bytes-take : (n : ℕ) (s : Bytes) → All (λ c. c < 256) s → sum_bytes (take n s) ≤ 255 * n
unfolding sum_bytes
sum_bytes-take zero s h = omega arith
sum_bytes-take (suc n) [] h = omega arith
sum_bytes-take (suc n) (c ∷ s) (h, hs) = omega (arith, sum_bytes-take n s hs)

sum_bytes-zeros : (n : ℕ) → sum_bytes (replicate n 0) ≡ 0
unfolding sum_bytes
sum_bytes-zeros zero = refl
sum_bytes-zeros (suc n) = omega (arith, sum_bytes-zeros n)

sum_bytes-text : (s : Bytes) → All (λ c. c < 256) s → sum_bytes (tar_write_text 100 s) ≤ 25245
unfolding tar_write_text
sum_bytes-text s h = omega (
  arith,
  sum_bytes-append (take 99 s) (replicate (100 - length (take 99 s)) 0),
  sum_bytes-take 99 s h,
  sum_bytes-zeros (100 - length (take 99 s)),
)

sum_bytes-digits :
    (k v : ℕ) (rest : Bytes) → sum_bytes (octal_digits k v rest) ≤ 55 * k + sum_bytes rest
unfolding octal_digits sum_bytes
sum_bytes-digits zero v rest = omega arith
sum_bytes-digits (suc k) v rest = omega (arith, sum_bytes-digits k (v / 8) ((b'0' + v % 8) ∷ rest))

sum_bytes-number : (v : ℕ) → sum_bytes (tar_write_number 12 v) ≤ 605
unfolding tar_write_number
sum_bytes-number v = omega (arith, sum_bytes-digits 11 v (0 ∷ []), sum_bytes-zeros 1)

sum_bytes-short_number : (v : ℕ) → sum_bytes (tar_write_number 8 v) ≤ 385
unfolding tar_write_number
sum_bytes-short_number v = omega (arith, sum_bytes-digits 7 v (0 ∷ []), sum_bytes-zeros 1)

sum_bytes-behind : sum_bytes (replicate 7 b' ' ++ behind_checksum) ≤ 10000
unfolding sum_bytes behind_checksum tar_write_text
sum_bytes-behind = omega arith

module _ (name : Bytes) (size now : ℕ) (bytes : All (λ c. c < 256) name) where
  abbrev times : Bytes
  times = tar_write_number 12 size ++ tar_write_number 12 now

  abbrev group : Bytes
  group = tar_write_number 8 0 ++ times

  abbrev owner : Bytes
  owner = tar_write_number 8 0 ++ group

  abbrev mode : Bytes
  mode = tar_write_number 8 0o640 ++ owner

  before-fields :
      sum_bytes (before_checksum name size now) ≡ sum_bytes (tar_write_text 100 name ++ mode)
  unfolding before_checksum
  before-fields = refl

  sum_bytes-before : sum_bytes (before_checksum name size now) ≤ 30000
  sum_bytes-before = omega (
    arith,
    before-fields,
    sum_bytes-append (tar_write_text 100 name) mode,
    sum_bytes-text name bytes,
    sum_bytes-append (tar_write_number 8 0o640) owner,
    sum_bytes-short_number 0o640,
    sum_bytes-append (tar_write_number 8 0) group,
    sum_bytes-short_number 0,
    sum_bytes-append (tar_write_number 8 0) times,
    sum_bytes-append (tar_write_number 12 size) (tar_write_number 12 now),
    sum_bytes-number size,
    sum_bytes-number now,
  )

  spaced-fits : sum_bytes (spaced name size now) < 8 ^ 6
  spaced-fits = omega (
    arith,
    sum_bytes-append (before_checksum name size now) (replicate 7 b' ' ++ behind_checksum),
    sum_bytes-before,
    sum_bytes-behind,
  )

  spaced-total :
      sum_bytes (spaced name size now)
      ≡ total (take 148 (filled name size now)) + 8 * b' ' + total (drop 156 (filled name size now))
  spaced-total =
      let before = before_checksum name size now in
      let e = filled-take name size now in
      let f = filled-drop name size now in
      omega (
        arith,
        sum_bytes-total (spaced name size now),
        total-append before (replicate 7 b' ' ++ behind_checksum),
        total-behind,
        ap total e,
        ap total f,
      )

  -- For a name of bytes, and a size and a time below 8 ^ 11: the header has 512 bytes, and a reader
  -- of octal fields finds in it, at their offsets, the size, the time and the checksum, which is the
  -- sum of all bytes of the header with eight spaces in place of those from 148 to 155.
  pub filled-read :
      size < 8 ^ 11
      → now < 8 ^ 11
      → (length (filled name size now) ≡ 512)
        × (read_octal 0 (drop 124 (filled name size now)) ≡ size)
        × (read_octal 0 (drop 136 (filled name size now)) ≡ now)
        × (read_octal 0 (drop 148 (filled name size now))
            ≡ total (take 148 (filled name size now))
              + 8 * b' '
              + total (drop 156 (filled name size now)))
  filled-read h k = (
    length-filled name size now,
    read-size name size now h,
    read-now name size now k,
    read-checksum name size now spaced-fits ∙ spaced-total,
  )
