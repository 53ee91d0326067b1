-- ===== src/Common/Tar.antt =====
-- common/include/ervan/io.hpp: the header of a tar entry, field by field in the order of the struct.
pub mod Header
pub mod Checksum
use ervan.Base.{
  ℕ, zero, suc, ◌+◌, ◌-◌, ◌/◌, ◌%◌, Bytes, length, take, replicate, [], ◌∷◌, ◌++◌, codes,
}

-- tar_write(char (&)[N], size_t): N - 1 octal digits, the highest first, and a NUL.
pub octal_digits : ℕ → ℕ → Bytes → Bytes
octal_digits zero value rest = rest
octal_digits (suc n) value rest = octal_digits n (value / 8) ((b'0' + value % 8) ∷ rest)

pub tar_write_number : ℕ → ℕ → Bytes
unfolding octal_digits
tar_write_number n value = octal_digits (n - 1) value (0 ∷ [])

-- tar_write(char (&)[N], const char*): at most N - 1 bytes of the text, and NULs up to N.
pub tar_write_text : ℕ → Bytes → Bytes
tar_write_text n text = let copied = take (n - 1) text in copied ++ replicate (n - length copied) 0

pub sum_bytes : Bytes → ℕ
sum_bytes [] = 0
sum_bytes (c ∷ cs) = c + sum_bytes cs

-- What stands in front of the checksum, and behind it.
pub before_checksum : Bytes → ℕ → ℕ → Bytes
unfolding tar_write_number tar_write_text
before_checksum name file_size now =
    tar_write_text 100 name
    ++ (tar_write_number 8 0o640
        ++ (tar_write_number 8 0
            ++ (tar_write_number 8 0
                ++ (tar_write_number 12 file_size ++ tar_write_number 12 now))))

pub behind_checksum : Bytes
unfolding tar_write_text
behind_checksum =
    b' '
    ∷ b'0'
    ∷ (tar_write_text 100 []
        ++ (tar_write_text 8 (codes "ustar  ")
            ++ (tar_write_text 32 (codes "ervan")
                ++ (tar_write_text 32 (codes "ervan")
                    ++ (tar_write_text 8 []
                        ++ (tar_write_text 8 []
                            ++ (tar_write_text 155 [] ++ tar_write_text 12 [])))))))

-- The checksum is taken with seven spaces in its field, and the field then overwritten.
pub filled : Bytes → ℕ → ℕ → Bytes
unfolding before_checksum behind_checksum sum_bytes tar_write_number
filled name file_size now =
    let before = before_checksum name file_size now in
    let sum = sum_bytes (before ++ (replicate 7 b' ' ++ behind_checksum)) in
    before ++ (tar_write_number 7 sum ++ behind_checksum)
