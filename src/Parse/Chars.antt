-- ===== src/Parse/Chars.antt =====
-- common/src/parse.cpp: the character classes. A `char` is its byte, from 0 to 255; a byte from
-- 128 on, negative as a signed `char`, is in none of the classes either way.
use ervan.Base.{ℕ, Bool, false, ◌&&◌, ◌||◌, ◌==◌, leb, Bytes, [], ◌∷◌, codes}

-- lo <= c && c <= hi
abbrev pub within : ℕ → ℕ → ℕ → Bool
within lo hi c = leb lo c && leb c hi

-- `isalnum` of <cctype> in the "C" locale.
unfoldable pub is_alnum : ℕ → Bool
is_alnum c = within b'0' b'9' c || within b'A' b'Z' c || within b'a' b'z' c

-- `std::string(…).find(c) != npos`
unfoldable pub contains : Bytes → ℕ → Bool
contains [] c = false
contains (x ∷ xs) c = c == x || contains xs c

unfoldable pub is_atext : ℕ → Bool
unfolding is_alnum contains
is_atext c = is_alnum c || contains (codes "!#$%&'*+-/=?^_`{|}~") c

unfoldable pub is_qtext_smtp : ℕ → Bool
is_qtext_smtp c = within 32 33 c || within 35 91 c || within 93 126 c

unfoldable pub is_estmp_value : ℕ → Bool
is_estmp_value c = within 33 60 c || within 62 126 c
