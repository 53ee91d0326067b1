-- ===== src/Parse/Examples.antt =====
-- The parsers' theorems at concrete inputs of the kind that tests/parse.cpp tries.
use ervan.Base.{Bytes, codes, ◌++◌, ◌∷◌, [], ◌≡◌, refl, arith}
use ervan.Parse.Chars.{is_alnum, is_estmp_value}
use ervan.Parse.Results.{ok, overrun, IsSettled, Part, EsmtpParam}
use ervan.Parse.{path, reverse_path, esmtp_param, domain, quoted_string}
use ervan.Parse.Paths.{IsPath, path-IsPath, IsReversePath, reverse_path-IsReversePath}
use ervan.Parse.Settled.{parsers-IsSettled}
use ervan.Parse.Quoted.{escape, quote, quoted_string-overrun}
use ervan.Parse.Labels.Sound.{Accepts, domain-Accepts}
use ervan.Parse.Labels.{dotted, host_of, domain-dotted}
use ervan.Parse.RoundTrip.{path-print}
use ervan.Parse.Params.{esmtp_param-print}

abbrev routed : Bytes
routed = codes "<@relayA,@relayB.xyz,@relayC:giga.test.a@example.com> stray"

abbrev simple : Bytes
simple = codes "<a@b.c> BODY=7BIT"

abbrev simple_part : Part
simple_part = record {
  body = codes "<a@b.c>";
  rest = codes " BODY=7BIT";
  mailbox = record {
    body = codes "a@b.c";
    rest = codes "> BODY=7BIT";
    local_part = record { body = codes "a"; rest = codes "@b.c> BODY=7BIT"; buffer = codes "a" };
    domain = record { body = codes "b.c"; rest = codes "> BODY=7BIT"; buffer = codes "b.c" };
  };
}

path-simple : path 0 simple ≡ ok simple_part
unfolding path
path-simple = refl

reverse_path-simple : reverse_path 0 simple ≡ ok simple_part
unfolding reverse_path path
reverse_path-simple = refl

path-IsPath_example : IsPath simple simple_part
path-IsPath_example = path-IsPath 0 simple path-simple

reverse_path-IsReversePath_example : IsReversePath simple simple_part
reverse_path-IsReversePath_example = reverse_path-IsReversePath 0 simple reverse_path-simple

parsers-IsSettled_example :
    IsSettled (path 0 routed) × IsSettled (reverse_path 0 routed) × IsSettled (esmtp_param routed)
parsers-IsSettled_example = parsers-IsSettled 0 routed refl

quoted_string-overrun_example :
    quoted_string b'a' (b'"' ∷ (escape (codes "x y") ++ (b'\\' ∷ []))) ≡ overrun
quoted_string-overrun_example =
    quoted_string-overrun b'a' (codes "x y") (refl, (refl, (refl, tt))) refl

domain-dotted_example :
    domain (dotted (codes "ab") (codes "c" ∷ []) ++ codes "> x")
    ≡ ok (host_of (dotted (codes "ab") (codes "c" ∷ [])) (codes "> x"))
unfolding is_alnum
domain-dotted_example =
    domain-dotted (codes "ab") (codes "c" ∷ []) (codes "> x") (refl, (refl, tt)) ((refl, tt), tt)
      (refl, refl) (omega arith)

path-print_example :
    (p : Part) × (path 0 (
        b'<'
        ∷ (quote (codes "x \"y")
            ++ (b'@' ∷ (dotted (codes "ab") (codes "c" ∷ []) ++ (b'>' ∷ codes " z")))))
      ≡ ok p)
    × (p.mailbox.local_part.buffer ≡ codes "x \"y")
    × (p.mailbox.domain.buffer ≡ dotted (codes "ab") (codes "c" ∷ []))
    × (p.rest ≡ codes " z")
unfolding is_alnum
path-print_example =
    path-print 0 (codes "x \"y") (codes "ab") (codes "c" ∷ []) (codes " z")
      (refl, (refl, (refl, (refl, tt)))) (omega arith) (refl, (refl, tt)) ((refl, tt), tt)
      (omega arith)

esmtp_param-print_example :
    (p : EsmtpParam) × (esmtp_param (codes "BODY" ++ (b'=' ∷ (codes "7BIT" ++ codes " x"))) ≡ ok p)
    × (p.key.body ≡ codes "BODY")
    × (p.value.body ≡ codes "7BIT")
    × (p.body ≡ codes "BODY" ++ (b'=' ∷ codes "7BIT"))
    × (p.rest ≡ codes " x")
unfolding is_alnum is_estmp_value
esmtp_param-print_example =
    esmtp_param-print (codes "BODY") (codes "7BIT") (codes " x") (refl, (refl, (refl, (refl, tt))))
      (refl, (refl, (refl, (refl, tt)))) refl

domain-Accepts_example : Accepts (codes "mx.example.>") (domain (codes "mx.example.>"))
domain-Accepts_example = domain-Accepts (codes "mx.example.>")
