-- ===== src/Strings/Span/Reads.antt =====
-- A span as the list of its bytes, which the other modules take it for.
use ervan.Base.{
  ℕ, zero, suc, ◌+◌, ◌-◌, ◌%◌, ◌^◌, ◌≤◌, ◌<◌, ◌≡◌, refl, sym, ap, ◌∙◌, ◌⊎◌, inl, inr, Bool, true,
  false, not, ◌&&◌, ◌==◌, ==_iff, Bool-cases, if◌then◌else◌, Bytes, drop, length, equal, equal_iff,
  map, [], ◌∷◌, arith,
}
use mathlib.Core.Path.{ap₂}
use native.Mathlib.Decide.{dec_le}
use ervan.Strings.Span.{
  to_lower, Memory, Span, of_ends, end_of, advance, compare_from, compare_insensitive, memcmp_equal,
  equals,
}

abbrev pub bytes_from : Memory → ℕ → ℕ → Bytes
bytes_from memory start zero = []
bytes_from memory start (suc left) = memory start ∷ bytes_from memory (start + 1) left

abbrev pub bytes : Memory → Span → Bytes
bytes memory sp = bytes_from memory sp.start sp.len

-- Within the span, what stands behind is left; behind it, the size wraps around.
abbrev pub Advances : Memory → ℕ → Span → Span → Type 0
Advances memory n sp t =
    ((n ≤ sp.len) × (bytes memory t ≡ drop n (bytes memory sp)) × (end_of t ≡ end_of sp))
    ⊎ ((sp.len < n) × (t.len ≡ 2 ^ 64 - (n - sp.len)))

drop-bytes_from :
    (memory : Memory) (start left n : ℕ)
    → n ≤ left
    → drop n (bytes_from memory start left) ≡ bytes_from memory (start + n) (left - n)
drop-bytes_from memory start left zero h =
    let e : start ≡ start + 0 = omega arith in
    let k : left ≡ left - 0 = omega arith in ap₂ (bytes_from memory) e k
drop-bytes_from memory start zero (suc n) h = absurd (omega arith)
drop-bytes_from memory start (suc left) (suc n) h =
    let e : start + 1 + n ≡ start + suc n = omega arith in
    let k : left - n ≡ suc left - suc n = omega arith in
    drop-bytes_from memory (start + 1) left n (omega arith) ∙ ap₂ (bytes_from memory) e k

-- The size of what a step leaves.
left_size :
    (start len n : ℕ)
    → start + len < 2 ^ 64
    → n ≤ len
    → ((start + len) % 2 ^ 64 + (2 ^ 64 - (start + n) % 2 ^ 64)) % 2 ^ 64 ≡ len - n
left_size start len n fits h = omega arith

over_size :
    (start len n : ℕ)
    → start + len < 2 ^ 64
    → start + n < 2 ^ 64
    → len < n
    → ((start + len) % 2 ^ 64 + (2 ^ 64 - (start + n) % 2 ^ 64)) % 2 ^ 64 ≡ 2 ^ 64 - (n - len)
over_size start len n fits h less = omega arith

same_end :
    (start len n : ℕ)
    → start + len < 2 ^ 64
    → n ≤ len
    → ((start + n) % 2 ^ 64 + (len - n)) % 2 ^ 64 ≡ (start + len) % 2 ^ 64
same_end start len n fits h = omega arith

-- A span in a memory of 2^64 bytes, and a step that stays in it: within the span, advance leaves just
-- the bytes behind the first `n`, and the same end; a step over the end gives a span whose size has
-- wrapped around.
pub advance-Advances :
    (memory : Memory) (n : ℕ) (sp : Span)
    → sp.start + sp.len < 2 ^ 64
    → sp.start + n < 2 ^ 64
    → Advances memory n sp (advance n sp)
unfolding advance of_ends end_of
advance-Advances memory n sp fits h = elim (dec_le n sp.len) [
  | yes within ↦
      let size = left_size sp.start sp.len n fits within in
      let from : (sp.start + n) % 2 ^ 64 ≡ sp.start + n = omega arith in
      inl (
        within,
        ap (λ k. bytes_from memory ((sp.start + n) % 2 ^ 64) k) size
            ∙ ap (λ k. bytes_from memory k (sp.len - n)) from
            ∙ sym (drop-bytes_from memory sp.start sp.len n within),
        ap (λ k. ((sp.start + n) % 2 ^ 64 + k) % 2 ^ 64) size
            ∙ same_end sp.start sp.len n fits within,
      )
  | no over ↦ inr (omega arith, over_size sp.start sp.len n fits h (omega arith))
]

if_and : (b c : Bool) → (if b then c else false) ≡ (b && c)
if_and true c = refl
if_and false c = refl

if_not_and : (b c : Bool) → (if not b then false else c) ≡ (b && c)
if_not_and true c = refl
if_not_and false c = refl

length-bytes_from :
    (memory : Memory) (start left : ℕ) → length (bytes_from memory start left) ≡ left
length-bytes_from memory start zero = refl
length-bytes_from memory start (suc left) = omega (arith, length-bytes_from memory (start + 1) left)

length-map : (f : ℕ → ℕ) (s : Bytes) → length (map f s) ≡ length s
length-map f [] = refl
length-map f (c ∷ s) = omega (arith, length-map f s)

-- Texts of two sizes differ.
equal_apart : (a b : Bytes) → (length a == length b) ≡ false → equal a b ≡ false
equal_apart a b h = elim (Bool-cases (equal a b)) [
  | inl e ↦ absurd (ground (arith, ap length ((equal_iff a b).0 e)))
  | inr e ↦ e
]

memcmp-equal :
    (memory : Memory) (a b left : ℕ)
    → memcmp_equal memory a b left ≡ equal (bytes_from memory a left) (bytes_from memory b left)
unfolding memcmp_equal
memcmp-equal memory a b zero = refl
memcmp-equal memory a b (suc left) =
    ap (λ r. if memory a == memory b then r else false) (memcmp-equal memory (a + 1) (b + 1) left)
    ∙ if_and (memory a == memory b) _

abbrev lowered_equal : Memory → ℕ → ℕ → ℕ → Bool
lowered_equal memory left a b =
    equal (map to_lower (bytes_from memory a left)) (map to_lower (bytes_from memory b left))

next : (start i : ℕ) → start + (i + 1) ≡ start + i + 1
next start i = omega arith

compare_from-equal :
    (memory : Memory) (a b : Span) (i left : ℕ)
    → compare_from memory a b i left
      ≡ equal
          (map to_lower (bytes_from memory (a.start + i) left))
          (map to_lower (bytes_from memory (b.start + i) left))
unfolding compare_from
compare_from-equal memory a b i zero = refl
compare_from-equal memory a b i (suc left) =
    ap
      (λ r.
        if not (to_lower (memory (a.start + i)) == to_lower (memory (b.start + i)))
        then false
        else r)
      (compare_from-equal memory a b (i + 1) left
        ∙ ap₂ (lowered_equal memory left) (next a.start i) (next b.start i))
    ∙ if_not_and (to_lower (memory (a.start + i)) == to_lower (memory (b.start + i))) _

both_sizes :
    (m n : ℕ) (same other : Bool)
    → ((m == n) ≡ true → same ≡ other)
    → ((m == n) ≡ false → other ≡ false)
    → (if not (m == n) then false else same) ≡ other
both_sizes m n same other h k = elim (Bool-cases (m == n)) [
  | inl e ↦ rw e (h e)
  | inr e ↦ rw e (sym (k e))
]

sizes :
    (memory : Memory) (a b : Span)
    → (a.len == b.len) ≡ false
    → (length (bytes memory a) == length (bytes memory b)) ≡ false
sizes memory a b e =
    rw (length-bytes_from memory a.start a.len, length-bytes_from memory b.start b.len) e

start_zero : (start : ℕ) → start + 0 ≡ start
start_zero start = omega arith

-- The comparisons of spans are those of their bytes: operator== finds just the same bytes equal, and
-- compare_insensitive just the bytes that are the same in lower case.
pub compares :
    (memory : Memory) (a b : Span)
    → (equals memory a b ≡ equal (bytes memory a) (bytes memory b))
      × (compare_insensitive memory a b
          ≡ equal (map to_lower (bytes memory a)) (map to_lower (bytes memory b)))
unfolding equals compare_insensitive
compares memory a b = (
  both_sizes a.len b.len _ _
      (λ e.
        memcmp-equal memory a.start b.start a.len
        ∙ ap (λ n. equal (bytes memory a) (bytes_from memory b.start n)) ((==_iff a.len b.len).0 e))
      (λ e. equal_apart (bytes memory a) (bytes memory b) (sizes memory a b e)),
  both_sizes a.len b.len _ _
      (λ e.
        compare_from-equal memory a b 0 a.len
        ∙ ap₂ (lowered_equal memory a.len) (start_zero a.start) (start_zero b.start)
        ∙ ap
            (λ n.
              equal (map to_lower (bytes memory a)) (map to_lower (bytes_from memory b.start n)))
            ((==_iff a.len b.len).0 e))
      (λ e. equal_apart (map to_lower (bytes memory a)) (map to_lower (bytes memory b)) (
        rw (length-map to_lower (bytes memory a), length-map to_lower (bytes memory b))
          (sizes memory a b e))),
)
