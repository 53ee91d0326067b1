-- ===== src/Parse/Spans.antt =====
-- Rests of an input, and the ranges between them.
use ervan.Base.{
  ℕ, zero, suc, ◌≤◌, ◌<◌, ◌≡◌, refl, sym, ap, ◌∙◌, Bytes, length, take, drop, length-append,
  take-append, [], ◌∷◌, ◌++◌, append_assoc, Bool, true, Bool-cases, Option-cases, inl, inr, arith,
}
use ervan.Parse.Results.{ok, between, Slice, Buffered, buffered}
use ervan.Parse.{skip_while, run_of, expect, domain_size, domain_of_size, domain}

-- `rest` is what is left of `src` behind `read`.
pub record Splits (src rest : Bytes) : Type 0 where
  pub read : Bytes
  pub at : src ≡ read ++ rest

pub Splits-refl : (src : Bytes) → Splits src src
Splits-refl src = record { read = []; at = refl }

pub Splits-cons : {src rest : Bytes} (c : ℕ) → Splits src rest → Splits (c ∷ src) rest
Splits-cons c s = record { read = c ∷ s.read; at = ap (◌∷◌ c) s.at }

pub Splits-trans : {a b c : Bytes} → Splits a b → Splits b c → Splits a c
Splits-trans {a} {b} {c} s t = record {
  read = s.read ++ t.read;
  at = s.at ∙ ap (◌++◌ s.read) t.at ∙ sym (append_assoc s.read t.read c);
}

pub between-append : (read rest : Bytes) → between (read ++ rest) rest ≡ read
between-append read rest = take-append read rest _ (omega (arith, length-append read rest))

-- The range from the start of the input to a rest of it, and the rest, make up the input.
pub between-Splits : {src rest : Bytes} → Splits src rest → src ≡ between src rest ++ rest
between-Splits {src} {rest} s = rw s.at (ap (λ b. b ++ rest) (sym (between-append s.read rest)))

pub length-Splits : {src rest : Bytes} → Splits src rest → length rest ≤ length src
length-Splits {src} {rest} s = rw s.at (omega (arith, length-append s.read rest))

pub skip_while-Splits : (test : ℕ → Bool) (src : Bytes) → Splits src (skip_while test src)
unfolding skip_while
skip_while-Splits test [] = Splits-refl []
skip_while-Splits test (c ∷ cs) = elim (Bool-cases (test c)) [
  | inl e ↦ rw e (Splits-cons c (skip_while-Splits test cs))
  | inr e ↦ rw e (Splits-refl (c ∷ cs))
]

pub expect-splits : (c : ℕ) (src : Bytes) {rest : Bytes} → expect c src ≡ ok rest → src ≡ c ∷ rest
unfolding expect
expect-splits c [] h = cc
expect-splits c (x ∷ xs) h = ground arith

pub take-drop : (n : ℕ) (src : Bytes) → take n src ++ drop n src ≡ src
take-drop zero src = refl
take-drop (suc n) [] = refl
take-drop (suc n) (x ∷ xs) = ap (◌∷◌ x) (take-drop n xs)

pub length-take-le : (n : ℕ) (src : Bytes) → length (take n src) ≤ n
length-take-le zero src = omega arith
length-take-le (suc n) [] = omega arith
length-take-le (suc n) (x ∷ xs) = omega (arith, length-take-le n xs)

-- A buffer holds what the span reads, and its NUL still fits.
pub record IsBuffered (capacity : ℕ) (src : Bytes) (b : Buffered) : Type 0 where
  pub splits : src ≡ b.body ++ b.rest
  pub fits : length b.body < capacity
  pub copied : b.buffer ≡ b.body

pub buffered-IsBuffered :
    (capacity : ℕ) (src rest : Bytes) (size : ℕ) {b : Buffered}
    → src ≡ take size src ++ rest
    → buffered capacity src rest size ≡ ok b
    → IsBuffered capacity src b
unfolding buffered
buffered-IsBuffered capacity src rest size s h = ground (arith, length-take-le size src)

pub domain-IsBuffered : (src : Bytes) {b : Buffered} → domain src ≡ ok b → IsBuffered 256 src b
unfolding domain
domain-IsBuffered src h = elim (Option-cases (domain_size true 0 src)) [
  | inl e ↦ cc
  | inr (size, e) ↦
      buffered-IsBuffered 256 src (drop size src) size (sym (take-drop size src))
        (rw (e, domain_of_size) at h)
]

pub run_of-splits :
    (first more : ℕ → Bool) (src : Bytes) {s : Slice}
    → run_of first more src ≡ ok s
    → src ≡ s.body ++ s.rest
unfolding run_of
run_of-splits first more [] h = cc
run_of-splits first more (c ∷ cs) h =
    ground (arith, between-Splits (Splits-cons c (skip_while-Splits more cs)))

pub length-run_of :
    (first more : ℕ → Bool) (src : Bytes) {s : Slice}
    → run_of first more src ≡ ok s
    → length s.rest < length src
unfolding run_of
length-run_of first more [] h = cc
length-run_of first more (c ∷ cs) h = ground (arith, length-Splits (skip_while-Splits more cs))
