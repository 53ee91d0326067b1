-- ===== src/Strings/Base64.antt =====
-- common/src/string.cpp: `base64_encode`. The output is what the call has written to `dst` so far,
-- whose length is `dst_offset`; a `char` is its byte, below 256.
pub mod Sextets
pub mod RoundTrip
mod Examples
use Prim.Native.Nat.{bit_and, bit_or}
use ervan.Base.{ℕ, ◌*◌, ◌/◌, Bytes, length, get_or, [], ◌∷◌, ◌++◌, codes}

-- The 65 characters, the padding last.
abbrev pub alphabet : Bytes
alphabet = codes "ABCDEFGHIJKLMNOPQRSTUVWXYZabcdefghijklmnopqrstuvwxyz0123456789+/="

-- base64_alphabet[i]
unfoldable pub symbol : ℕ → ℕ
symbol i = get_or alphabet i 0

-- (a & 0xFC) >> 2
abbrev pub sextet0 : ℕ → ℕ
sextet0 a = bit_and a 0xfc / 4

-- ((a & 0x03) << 4) | ((b & 0xF0) >> 4)
abbrev pub sextet1 : ℕ → ℕ → ℕ
sextet1 a b = bit_or (bit_and a 0x03 * 16) (bit_and b 0xf0 / 16)

-- ((b & 0x0F) << 2) | ((c & 0xC0) >> 6)
abbrev pub sextet2 : ℕ → ℕ → ℕ
sextet2 b c = bit_or (bit_and b 0x0f * 4) (bit_and c 0xc0 / 64)

-- (c & 0x3F) << 0
abbrev pub sextet3 : ℕ → ℕ
sextet3 c = bit_and c 0x3f

-- The loop over three bytes at a time, and the two cases behind it.
unfoldable pub encode_onto : Bytes → Bytes → Bytes
unfolding symbol
encode_onto out (a ∷ b ∷ c ∷ rest) =
    encode_onto
      (out
        ++ (symbol (sextet0 a)
            ∷ symbol (sextet1 a b)
            ∷ symbol (sextet2 b c)
            ∷ symbol (sextet3 c)
            ∷ []))
      rest
encode_onto out (a ∷ b ∷ []) =
    out
    ++ (symbol (sextet0 a) ∷ symbol (sextet1 a b) ∷ symbol (bit_and b 0x0f * 4) ∷ symbol 64 ∷ [])
encode_onto out (a ∷ []) =
    out ++ (symbol (sextet0 a) ∷ symbol (bit_and a 0x03 * 16) ∷ symbol 64 ∷ symbol 64 ∷ [])
encode_onto out [] = out

unfoldable pub base64_encode : Bytes → Bytes
unfolding encode_onto
base64_encode = encode_onto []

-- The returned `dst_offset`.
abbrev pub encoded_size : Bytes → ℕ
encoded_size src = length (base64_encode src)

-- `base64_decode` writes nothing and returns 0, whatever its input.
unfoldable pub base64_decode : Bytes → Bytes → ℕ × Bytes
base64_decode src dst = (0, dst)
