-- ===== src/Parse/Labels.antt =====
-- Domains: labels joined by dots, printed and read back.
pub mod Sound
use ervan.Base.{
  ℕ, ◌+◌, ◌<◌, ◌≡◌, refl, ap, ◌∙◌, not, lt→leb_false, Bytes, length, drop, length-append, [], ◌∷◌,
  ◌++◌, append_assoc, Bool, true, false, ◌&&◌, ◌||◌, ◌==◌, arith, All, List, take-append,
  drop-append, some,
}
use ervan.Parse.Chars.{is_alnum}
use ervan.Parse.Results.{ok, Buffered, buffered}
use ervan.Parse.{domain, domain_size, domain_of_size}

-- Let-dig-hyphen strings, and their join by dots.
abbrev pub ldh : ℕ → Bool
ldh c = is_alnum c || c == b'-'

abbrev pub IsLabel : Bytes → Type 0
IsLabel [] = ⊥
IsLabel (c ∷ cs) = (ldh c ≡ true) × All (λ c. ldh c ≡ true) cs

abbrev pub dotted : Bytes → List Bytes → Bytes
dotted l [] = l
dotted l (m ∷ ms) = l ++ (b'.' ∷ dotted m ms)

-- Where a domain ends.
abbrev pub Ends : Bytes → Type 0
Ends [] = Unit
Ends (c ∷ cs) = (ldh c ≡ false) × ((c == b'.') ≡ false)

pub not-ldh : (c : ℕ) → (not (is_alnum c) && not (c == b'-')) ≡ not (ldh c)
not-ldh c = ground arith

pub domain_size-ldh :
    (required : Bool) (n c : ℕ) (r : Bytes)
    → ldh c ≡ true
    → domain_size required n (c ∷ r) ≡ domain_size false (n + 1) r
unfolding domain_size
domain_size-ldh required n c r h = rw (not-ldh c, h)

domain_size-run :
    (n : ℕ) (l rest : Bytes)
    → All (λ c. ldh c ≡ true) l
    → domain_size false n (l ++ rest) ≡ domain_size false (n + length l) rest
domain_size-run n [] rest h = ap (λ k. domain_size false k rest) (omega arith)
domain_size-run n (c ∷ l) rest (h, hs) =
    domain_size-ldh false n c _ h
    ∙ domain_size-run (n + 1) l rest hs
    ∙ ap (λ k. domain_size false k rest) (omega arith)

domain_size-label :
    (n : ℕ) (l rest : Bytes)
    → IsLabel l
    → domain_size true n (l ++ rest) ≡ domain_size false (n + length l) rest
domain_size-label n [] rest h = absurd h
domain_size-label n (c ∷ l) rest (h, hs) =
    domain_size-ldh true n c _ h
    ∙ domain_size-run (n + 1) l rest hs
    ∙ ap (λ k. domain_size false k rest) (omega arith)

domain_size-dot : (n : ℕ) (r : Bytes) → domain_size false n (b'.' ∷ r) ≡ domain_size true (n + 1) r
unfolding domain_size
domain_size-dot n r = refl

domain_size-Ends : (n : ℕ) (rest : Bytes) → Ends rest → domain_size false n rest ≡ some n
unfolding domain_size
domain_size-Ends n [] h = refl
domain_size-Ends n (c ∷ cs) (h, d) = ground (arith, not-ldh c)

domain_size-dotted :
    (n : ℕ) (l : Bytes) (ls : List Bytes) (rest : Bytes)
    → IsLabel l
    → All IsLabel ls
    → Ends rest
    → domain_size true n (dotted l ls ++ rest) ≡ some (n + length (dotted l ls))
domain_size-dotted n l [] rest h hs e = domain_size-label n l rest h ∙ domain_size-Ends _ rest e
domain_size-dotted n l (m ∷ ms) rest h (hm, hms) e = rw (append_assoc l (b'.' ∷ dotted m ms) rest) (
    domain_size-label n l _ h
    ∙ domain_size-dot _ _
    ∙ domain_size-dotted (n + length l + 1) m ms rest hm hms e
    ∙ ap some (omega (arith, length-append l (b'.' ∷ dotted m ms))))

-- A domain as its parser reports it.
abbrev pub host_of : Bytes → Bytes → Buffered
host_of d rest = record { body = d; rest = rest; buffer = d }

buffered-append :
    (capacity : ℕ) (d rest : Bytes) (size : ℕ)
    → size ≡ length d
    → length d < capacity
    → buffered capacity (d ++ rest) (drop size (d ++ rest)) size ≡ ok (host_of d rest)
unfolding buffered
buffered-append capacity d rest size e fits =
    rw (
      lt→leb_false capacity size (omega arith),
      take-append d rest size e,
      drop-append d rest size e,
    )

-- Every join of labels by dots that has below 256 bytes is read as a domain, up to where it ends.
pub domain-dotted :
    (l : Bytes) (ls : List Bytes) (rest : Bytes)
    → IsLabel l
    → All IsLabel ls
    → Ends rest
    → length (dotted l ls) < 256
    → domain (dotted l ls ++ rest) ≡ ok (host_of (dotted l ls) rest)
unfolding domain domain_of_size
domain-dotted l ls rest h hs e fits =
    rw (domain_size-dotted 0 l ls rest h hs e, domain_of_size)
      (buffered-append 256 (dotted l ls) rest _ (omega arith) fits)
