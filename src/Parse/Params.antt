-- ===== src/Parse/Params.antt =====
-- ESMTP parameters, `key=value`, printed and read back.
use ervan.Base.{
  ℕ, ◌≡◌, refl, sym, ap, ◌∙◌, Bytes, [], ◌∷◌, ◌++◌, append_assoc, Bool, true, false, ◌||◌, ◌==◌,
  arith, All,
}
use ervan.Parse.Chars.{is_alnum, is_estmp_value}
use ervan.Parse.Results.{Outcome, ok, ◌>>=◌, ok-bind, between, Slice, EsmtpParam}
use ervan.Parse.Spans.{between-append}
use ervan.Parse.{skip_while, run_of, expect, esmtp_value, esmtp_param}

-- One byte of `first`, then bytes of `more`.
abbrev pub IsRun : (ℕ → Bool) → (ℕ → Bool) → Bytes → Type 0
IsRun first more [] = ⊥
IsRun first more (c ∷ cs) = (first c ≡ true) × All (λ d. more d ≡ true) cs

-- The run goes no further.
abbrev pub Stops : (ℕ → Bool) → Bytes → Type 0
Stops more [] = Unit
Stops more (c ∷ cs) = more c ≡ false

pub skip_while-append :
    (test : ℕ → Bool) (s rest : Bytes)
    → All (λ d. test d ≡ true) s
    → Stops test rest
    → skip_while test (s ++ rest) ≡ rest
unfolding skip_while
skip_while-append test [] [] h e = refl
skip_while-append test [] (c ∷ cs) h e = rw e
skip_while-append test (c ∷ s) rest (h, hs) e = rw h (skip_while-append test s rest hs e)

run_of-append :
    (first more : ℕ → Bool) (s rest : Bytes)
    → IsRun first more s
    → Stops more rest
    → run_of first more (s ++ rest) ≡ ok (record { body = s; rest = rest })
unfolding run_of
run_of-append first more [] rest h e = absurd h
run_of-append first more (c ∷ cs) rest (h, hs) e =
    rw (h, skip_while-append more cs rest hs e)
      (ap (λ b. ok (record { body = b; rest = rest })) (between-append (c ∷ cs) rest))

abbrev pub keyword_char : ℕ → Bool
keyword_char c = is_alnum c || c == b'-'

expect-cons : (c : ℕ) (r : Bytes) → expect c (c ∷ r) ≡ ok r
unfolding expect
expect-cons c r = ground arith

abbrev with_key : Bytes → Slice → Outcome EsmtpParam
with_key src key = do
  after_equals ← expect b'=' key.rest
  value ← esmtp_value after_equals
  ok (record { body = between src value.rest; rest = value.rest; key = key; value = value })

-- `esmtp_param` reads a keyword (a letter or digit, then letters, digits and hyphens), `=` and a
-- value (bytes from 33 to 126 without `=`), up to the first byte that is no value's, or the end: it
-- reports the key, the value, both as the body, and what stands behind as the rest.
pub esmtp_param-print :
    (key value rest : Bytes)
    → IsRun is_alnum keyword_char key
    → IsRun is_estmp_value is_estmp_value value
    → Stops is_estmp_value rest
    → (p : EsmtpParam) × (esmtp_param (key ++ (b'=' ∷ (value ++ rest))) ≡ ok p)
      × (p.key.body ≡ key)
      × (p.value.body ≡ value)
      × (p.body ≡ key ++ (b'=' ∷ value))
      × (p.rest ≡ rest)
unfolding esmtp_param
esmtp_param-print key value rest k v e =
    let src = key ++ (b'=' ∷ (value ++ rest)) in
    let after_key = b'=' ∷ (value ++ rest) in
    let read_key : Slice = record { body = key; rest = after_key } in
    let read_value : Slice = record { body = value; rest = rest } in
    (
      record { body = between src rest; rest = rest; key = read_key; value = read_value },
      ok-bind (with_key src) (run_of-append is_alnum keyword_char key after_key k refl)
          ∙ ok-bind
              (λ v.
                ok (record { body = between src v.rest; rest = v.rest; key = read_key; value = v }))
              (run_of-append is_estmp_value is_estmp_value value rest v e),
      refl,
      refl,
      ap (λ b. between b rest) (sym (append_assoc key (b'=' ∷ value) rest))
          ∙ between-append (key ++ (b'=' ∷ value)) rest,
      refl,
    )
