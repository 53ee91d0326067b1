-- ===== src/Strings/Base64/RoundTrip.antt =====
-- What RFC 4648 reads from the encoder's output.
use Prim.Native.Nat.{bit_and}
use ervan.Base.{
  ℕ, ◌+◌, ◌*◌, ◌/◌, ◌%◌, ◌<◌, ◌≡◌, refl, sym, ap, ◌∙◌, ◌==◌, if◌then◌else◌, All, Bytes, length,
  length-append, [], ◌∷◌, ◌++◌, append_assoc, append-nil, arith,
}
use ervan.Strings.Base64.{
  symbol, sextet0, sextet1, sextet2, sextet3, encode_onto, base64_encode, encoded_size,
}
use ervan.Strings.Base64.Sextets.{
  value_of, symbol-value, low_two, low_four, sextet0-eq, sextet1-eq, sextet2-eq, sextet3-eq,
}

abbrev first_byte : ℕ → ℕ → ℕ
first_byte v w = v * 4 + w / 16

abbrev second_byte : ℕ → ℕ → ℕ
second_byte w x = w % 16 * 16 + x / 4

abbrev third_byte : ℕ → ℕ → ℕ
third_byte x y = x % 4 * 64 + y

-- A decoder by RFC 4648, section 4, four characters at a time. The program has none.
pub decode : Bytes → Bytes
decode (a ∷ b ∷ c ∷ d ∷ rest) =
    let v = value_of a in
    let w = value_of b in
    let x = value_of c in
    let one = first_byte v w ∷ [] in
    let two = first_byte v w ∷ second_byte w x ∷ [] in
    let three = first_byte v w ∷ second_byte w x ∷ third_byte x (value_of d) ∷ decode rest in
    if c == b'=' then one else if d == b'=' then two else three
decode _ = []

-- The characters of a group, and of the two kinds of last group.
abbrev group3 : ℕ → ℕ → ℕ → Bytes
group3 a b c =
    symbol (sextet0 a) ∷ symbol (sextet1 a b) ∷ symbol (sextet2 b c) ∷ symbol (sextet3 c) ∷ []

encode_onto-append : (out s : Bytes) → encode_onto out s ≡ out ++ encode_onto [] s
unfolding encode_onto
encode_onto-append out [] = sym (append-nil out)
encode_onto-append out (a ∷ []) = refl
encode_onto-append out (a ∷ b ∷ []) = refl
encode_onto-append out (a ∷ b ∷ c ∷ rest) =
    encode_onto-append (out ++ group3 a b c) rest
    ∙ append_assoc out (group3 a b c) (encode_onto [] rest)
    ∙ ap (λ t. out ++ t) (sym (encode_onto-append (group3 a b c) rest))

same_three :
    {a b c x y z : ℕ} (rest : Bytes) → x ≡ a → y ≡ b → z ≡ c → x ∷ y ∷ z ∷ rest ≡ a ∷ b ∷ c ∷ rest
same_three rest p q r = cc

same_two : {a b x y : ℕ} → x ≡ a → y ≡ b → x ∷ y ∷ [] ≡ a ∷ b ∷ []
same_two p q = cc

padding : (symbol 64 ≡ b'=')
unfolding symbol
padding = refl

decode-group3 :
    (a b c : ℕ) (rest : Bytes)
    → a < 256
    → b < 256
    → c < 256
    → decode (group3 a b c ++ rest) ≡ a ∷ b ∷ c ∷ decode rest
unfolding decode
decode-group3 a b c rest h k l =
    let (v, e) = symbol-value (a / 4) (omega arith) in
    let (w, f) = symbol-value (a % 4 * 16 + b / 16) (omega arith) in
    let (x, g) = symbol-value (b % 16 * 4 + c / 64) (omega arith) in
    let (y, i) = symbol-value (c % 64) (omega arith) in
    rw (sextet0-eq a h, sextet1-eq a b h k, sextet2-eq b c k l, sextet3-eq c l, v, w, x, y, g, i)
      (same_three (decode rest) (omega arith) (omega arith) (omega arith))

decode-group2 :
    (a b : ℕ)
    → a < 256
    → b < 256
    → decode
        (symbol (sextet0 a) ∷ symbol (sextet1 a b) ∷ symbol (bit_and b 0x0f * 4) ∷ symbol 64 ∷ [])
      ≡ a ∷ b ∷ []
unfolding decode
decode-group2 a b h k =
    let (v, e) = symbol-value (a / 4) (omega arith) in
    let (w, f) = symbol-value (a % 4 * 16 + b / 16) (omega arith) in
    let (x, g) = symbol-value (b % 16 * 4) (omega arith) in
    rw (sextet0-eq a h, sextet1-eq a b h k, low_four b k, v, w, x, g, padding)
      (same_two (omega arith) (omega arith))

decode-group1 :
    (a : ℕ)
    → a < 256
    → decode (symbol (sextet0 a) ∷ symbol (bit_and a 0x03 * 16) ∷ symbol 64 ∷ symbol 64 ∷ [])
      ≡ a ∷ []
unfolding decode
decode-group1 a h =
    let (v, e) = symbol-value (a / 4) (omega arith) in
    let (w, f) = symbol-value (a % 4 * 16) (omega arith) in
    rw (sextet0-eq a h, low_two a h, v, w, padding) (ap (λ z. z ∷ []) (omega arith))

encode_onto-decode : (s : Bytes) → All (λ c. c < 256) s → decode (encode_onto [] s) ≡ s
unfolding encode_onto
encode_onto-decode [] h = unfold decode in refl
encode_onto-decode (a ∷ []) (h, u) = decode-group1 a h
encode_onto-decode (a ∷ b ∷ []) (h, (k, u)) = decode-group2 a b h k
encode_onto-decode (a ∷ b ∷ c ∷ rest) (h, (k, (l, hs))) =
    ap decode (encode_onto-append (group3 a b c) rest)
    ∙ decode-group3 a b c (encode_onto [] rest) h k l
    ∙ ap (λ t. a ∷ b ∷ c ∷ t) (encode_onto-decode rest hs)

-- Whatever bytes base64_encode is given, a decoder by RFC 4648 reads them back from its output.
pub base64_encode-decode : (src : Bytes) → All (λ c. c < 256) src → decode (base64_encode src) ≡ src
unfolding base64_encode
base64_encode-decode src h = encode_onto-decode src h

length-encode_onto : (s : Bytes) → length (encode_onto [] s) ≡ (length s + length s / 3 + 3) / 4 * 4
unfolding encode_onto
length-encode_onto [] = refl
length-encode_onto (a ∷ []) = refl
length-encode_onto (a ∷ b ∷ []) = refl
length-encode_onto (a ∷ b ∷ c ∷ rest) = omega (
  arith,
  length-encode_onto rest,
  ap length (encode_onto-append (group3 a b c) rest),
  length-append (group3 a b c) (encode_onto [] rest),
)

-- The encoder's output has just the size that metadata::write_to reckons with for its buffer,
-- (len + len / 3 + 3) / 4 * 4, for every length of the input: no byte is written behind it.
pub encoded_size-eq : (src : Bytes) → encoded_size src ≡ (length src + length src / 3 + 3) / 4 * 4
unfolding base64_encode
encoded_size-eq src = length-encode_onto src
