-- ===== src/Common/Tar/Header.antt =====
-- The tar header as a reader of the archive sees it.
use ervan.Base.{
  true, ℕ, zero, suc, ◌+◌, ◌-◌, ◌*◌, ◌/◌, ◌%◌, ◌^◌, ◌≤◌, ◌<◌, ◌≡◌, refl, sym, ap, ◌∙◌, ◌&&◌, leb,
  if◌then◌else◌, Bytes, length, length-append, length-replicate, take, drop, drop-append,
  take-append, append_assoc, replicate, [], ◌∷◌, ◌++◌, arith,
}
use ervan.Common.Tar.{
  octal_digits, tar_write_number, tar_write_text, sum_bytes, before_checksum, behind_checksum,
  filled,
}

-- A number field: its octal digits, up to the first byte that is none.
abbrev pub read_octal : ℕ → Bytes → ℕ
read_octal n [] = n
read_octal n (c ∷ cs) =
    let more = read_octal (n * 8 + (c - b'0')) cs in if leb b'0' c && leb c b'7' then more else n

-- `n` times the factor 8.
abbrev shift : ℕ → ℕ → ℕ
shift zero n = n
shift (suc k) n = shift k n * 8

shift-zero : (k : ℕ) → shift k 0 ≡ 0
shift-zero zero = refl
shift-zero (suc k) = omega (arith, shift-zero k)

octal-test : (d : ℕ) → d < 8 → (leb b'0' (b'0' + d) && leb (b'0' + d) b'7') ≡ true
octal-test d h = ground arith

back : (d : ℕ) → b'0' + d - b'0' ≡ d
back d = omega arith

read_octal-digit :
    (n v : ℕ) (rest : Bytes)
    → read_octal n ((b'0' + v % 8) ∷ rest) ≡ read_octal (n * 8 + v % 8) rest
read_octal-digit n v rest = rw (octal-test (v % 8) (omega arith), back (v % 8)) refl

read_octal-digits :
    (k n v : ℕ) (rest : Bytes)
    → v < shift k 1
    → read_octal n (octal_digits k v rest) ≡ read_octal (shift k n + v) rest
unfolding octal_digits
read_octal-digits zero n v rest h = ap (λ m. read_octal m rest) (omega arith)
read_octal-digits (suc k) n v rest h =
    read_octal-digits k n (v / 8) _ (omega arith)
    ∙ read_octal-digit (shift k n + v / 8) v rest
    ∙ ap (λ m. read_octal m rest) (omega arith)

octal_digits-append : (k v : ℕ) (a b : Bytes) → octal_digits k v a ++ b ≡ octal_digits k v (a ++ b)
unfolding octal_digits
octal_digits-append zero v a b = refl
octal_digits-append (suc k) v a b = octal_digits-append k (v / 8) _ b

pred : (k : ℕ) → suc k - 1 ≡ k
pred k = omega arith

tar_write_number-read :
    (k v : ℕ) (rest : Bytes) → v < shift k 1 → read_octal 0 (tar_write_number (suc k) v ++ rest) ≡ v
unfolding tar_write_number
tar_write_number-read k v rest h =
    ap (λ m. read_octal 0 (octal_digits m v (0 ∷ []) ++ rest)) (pred k)
    ∙ ap (read_octal 0) (octal_digits-append k v (0 ∷ []) rest)
    ∙ read_octal-digits k 0 v (0 ∷ rest) h
    ∙ omega (arith, shift-zero k)

length-octal_digits : (k v : ℕ) (rest : Bytes) → length (octal_digits k v rest) ≡ k + length rest
unfolding octal_digits
length-octal_digits zero v rest = omega arith
length-octal_digits (suc k) v rest =
    omega (arith, length-octal_digits k (v / 8) ((b'0' + v % 8) ∷ rest))

length-take_le : (n : ℕ) (s : Bytes) → length (take n s) ≤ n
length-take_le zero s = omega arith
length-take_le (suc n) [] = omega arith
length-take_le (suc n) (c ∷ s) = omega (arith, length-take_le n s)

length-tar_write_number : (k v : ℕ) → length (tar_write_number (suc k) v) ≡ suc k
unfolding tar_write_number
length-tar_write_number k v = rw (pred k) (omega (arith, length-octal_digits k v (0 ∷ [])))

length-tar_write_text : (n : ℕ) (text : Bytes) → length (tar_write_text n text) ≡ n
unfolding tar_write_text
length-tar_write_text n text = omega (
  arith,
  length-append (take (n - 1) text) (replicate (n - length (take (n - 1) text)) 0),
  length-take_le (n - 1) text,
  length-replicate {A = ℕ} (n - length (take (n - 1) text)) 0,
)

drop-more : (a b : Bytes) (k n : ℕ) → k ≡ length a + n → drop k (a ++ b) ≡ drop n b
drop-more [] b k n h = ap (λ m. drop m b) (omega arith)
drop-more (x ∷ a) b zero n h = absurd (omega arith)
drop-more (x ∷ a) b (suc k) n h = drop-more a b k n (omega arith)

drop-front : (n : ℕ) (a b : Bytes) → n ≤ length a → drop n (a ++ b) ≡ drop n a ++ b
drop-front zero a b h = refl
drop-front (suc n) [] b h = absurd (omega arith)
drop-front (suc n) (x ∷ a) b h = drop-front n a b (omega arith)

module _ (name : Bytes) (size now : ℕ) where
  abbrev text : Bytes
  text = tar_write_text 100 name

  abbrev numbers : Bytes
  numbers =
      tar_write_number 8 0o640
      ++ (tar_write_number 8 0
          ++ (tar_write_number 8 0 ++ (tar_write_number 12 size ++ tar_write_number 12 now)))

  length-before : length (before_checksum name size now) ≡ 148
  unfolding before_checksum
  length-before = length-append text numbers ∙ ap (λ n. n + 48) (length-tar_write_text 100 name)

  length-behind : length behind_checksum ≡ 357
  unfolding behind_checksum tar_write_text
  length-behind = refl

  drop-before :
      drop 124 (before_checksum name size now) ≡ tar_write_number 12 size ++ tar_write_number 12 now
  unfolding before_checksum
  drop-before = drop-more text numbers 124 24 (omega (arith, length-tar_write_text 100 name))

  drop-times : drop 136 (before_checksum name size now) ≡ tar_write_number 12 now
  unfolding before_checksum
  drop-times = drop-more text numbers 136 36 (omega (arith, length-tar_write_text 100 name))

  -- What the checksum is taken of.
  abbrev pub spaced : Bytes
  spaced = before_checksum name size now ++ (replicate 7 b' ' ++ behind_checksum)

  abbrev back_half : Bytes
  back_half = tar_write_number 7 (sum_bytes spaced) ++ behind_checksum

  pub length-filled : length (filled name size now) ≡ 512
  unfolding filled
  length-filled =
      length-append (before_checksum name size now) back_half
      ∙ omega (
        arith,
        length-before,
        length-append (tar_write_number 7 (sum_bytes spaced)) behind_checksum,
        length-tar_write_number 6 (sum_bytes spaced),
        length-behind,
      )

  pub filled-take : take 148 (filled name size now) ≡ before_checksum name size now
  unfolding filled
  filled-take = take-append (before_checksum name size now) back_half 148 (sym length-before)

  pub filled-drop : drop 156 (filled name size now) ≡ drop 1 behind_checksum
  unfolding filled
  filled-drop =
      drop-more (before_checksum name size now) back_half 156 8 (omega (arith, length-before))
      ∙ drop-more (tar_write_number 7 (sum_bytes spaced)) behind_checksum 8 1
          (omega (arith, length-tar_write_number 6 (sum_bytes spaced)))

  pub read-size : size < 8 ^ 11 → read_octal 0 (drop 124 (filled name size now)) ≡ size
  unfolding filled
  read-size h =
      ap (read_octal 0)
        (drop-front 124 (before_checksum name size now) back_half (omega (arith, length-before)))
      ∙ ap (λ b. read_octal 0 (b ++ back_half)) drop-before
      ∙ ap (read_octal 0)
          (append_assoc (tar_write_number 12 size) (tar_write_number 12 now) back_half)
      ∙ tar_write_number-read 11 size (tar_write_number 12 now ++ back_half) h

  pub read-now : now < 8 ^ 11 → read_octal 0 (drop 136 (filled name size now)) ≡ now
  unfolding filled
  read-now h =
      ap (read_octal 0)
        (drop-front 136 (before_checksum name size now) back_half (omega (arith, length-before)))
      ∙ ap (λ b. read_octal 0 (b ++ back_half)) drop-times
      ∙ tar_write_number-read 11 now back_half h

  pub read-checksum :
      sum_bytes spaced < 8 ^ 6 → read_octal 0 (drop 148 (filled name size now)) ≡ sum_bytes spaced
  unfolding filled
  read-checksum h =
      ap (read_octal 0)
        (drop-append (before_checksum name size now) back_half 148 (sym length-before))
      ∙ tar_write_number-read 6 (sum_bytes spaced) behind_checksum h
