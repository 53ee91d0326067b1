-- ===== src/Strings/Base64/Examples.antt =====
-- The word of RFC 4648's test vectors with each kind of last group.
use ervan.Base.{◌≡◌, codes, arith}
use ervan.Strings.Base64.{base64_encode}
use ervan.Strings.Base64.RoundTrip.{decode, base64_encode-decode}

base64_encode-decode_example : decode (base64_encode (codes "fooba")) ≡ codes "fooba"
base64_encode-decode_example =
    base64_encode-decode (codes "fooba")
      (omega arith, (omega arith, (omega arith, (omega arith, (omega arith, tt)))))
