-- ===== src/Strings/Base64/Sextets.antt =====
-- The four sextets of three bytes, as arithmetic, and the symbols that stand for them.
use Prim.Native.Nat.{bit_and, bit_or}
use ervan.Base.{
  ℕ, zero, suc, ◌+◌, ◌-◌, ◌*◌, ◌/◌, ◌%◌, ◌<◌, ◌≡◌, refl, ap, ◌∙◌, Bool, true, false, not, ◌&&◌,
  ◌==◌, ==_iff, leb, if◌then◌else◌, arith,
}
use ervan.Strings.Base64.{symbol, sextet0, sextet1, sextet2, sextet3}

-- A test that holds of every number below a bound, by evaluation.
holds_below : ℕ → (ℕ → Bool) → Bool
holds_below zero test = true
holds_below (suc n) test = test n && holds_below n test

holds_below-at :
    (n : ℕ) (test : ℕ → Bool) (x : ℕ) → holds_below n test ≡ true → x < n → test x ≡ true
unfolding holds_below
holds_below-at zero test x h l = absurd (omega arith)
holds_below-at (suc n) test x h l = ground (arith, holds_below-at n test x)

-- The value of a symbol, as RFC 4648 gives it.
abbrev pub value_of : ℕ → ℕ
value_of c =
    if leb b'a' c
    then c - b'a' + 26
    else if leb b'A' c
    then c - b'A'
    else if leb b'0' c
    then c - b'0' + 52
    else if c == b'+'
    then 62
    else 63

symbols : holds_below 64 (λ i. value_of (symbol i) == i && not (symbol i == b'=')) ≡ true
unfolding holds_below symbol
symbols = refl

both : (a b : Bool) → (a && b) ≡ true → (a ≡ true) × (b ≡ true)
both true true h = (refl, refl)
both true false h = cc
both false b h = cc

negated : (a : Bool) → not a ≡ true → a ≡ false
negated true h = cc
negated false h = refl

pub symbol-value : (i : ℕ) → i < 64 → (value_of (symbol i) ≡ i) × ((symbol i == b'=') ≡ false)
symbol-value i h =
    let (v, e) = both _ _ (holds_below-at 64 _ i symbols h) in ((==_iff _ i).0 v, negated _ e)

-- Two functions that agree at every number below a bound.
agree : (n : ℕ) (f g : ℕ → ℕ) (x : ℕ) → holds_below n (λ y. f y == g y) ≡ true → x < n → f x ≡ g x
agree n f g x table h = (==_iff (f x) (g x)).0 (holds_below-at n (λ y. f y == g y) x table h)

joined : (x y : ℕ) → x < 4 → y < 16 → bit_or (x * 16) y ≡ x * 16 + y
unfolding holds_below
joined x y h k =
    ap (λ z. bit_or (z * 16) y) (omega arith)
    ∙ ap (bit_or ((x * 16 + y) / 16 * 16)) (omega arith)
    ∙ agree 64 (λ z. bit_or (z / 16 * 16) (z % 16)) (λ z. z) (x * 16 + y) refl (omega arith)

joined_low : (x y : ℕ) → x < 16 → y < 4 → bit_or (x * 4) y ≡ x * 4 + y
unfolding holds_below
joined_low x y h k =
    ap (λ z. bit_or (z * 4) y) (omega arith)
    ∙ ap (bit_or ((x * 4 + y) / 4 * 4)) (omega arith)
    ∙ agree 64 (λ z. bit_or (z / 4 * 4) (z % 4)) (λ z. z) (x * 4 + y) refl (omega arith)

pub low_two : (a : ℕ) → a < 256 → bit_and a 0x03 ≡ a % 4
unfolding holds_below
low_two a h = agree 256 (λ x. bit_and x 0x03) (λ x. x % 4) a refl h

pub low_four : (b : ℕ) → b < 256 → bit_and b 0x0f ≡ b % 16
unfolding holds_below
low_four b h = agree 256 (λ x. bit_and x 0x0f) (λ x. x % 16) b refl h

high_four : (b : ℕ) → b < 256 → bit_and b 0xf0 / 16 ≡ b / 16
unfolding holds_below
high_four b h = agree 256 (λ x. bit_and x 0xf0 / 16) (λ x. x / 16) b refl h

high_two : (c : ℕ) → c < 256 → bit_and c 0xc0 / 64 ≡ c / 64
unfolding holds_below
high_two c h = agree 256 (λ x. bit_and x 0xc0 / 64) (λ x. x / 64) c refl h

-- The sextets by division and remainder.
pub sextet0-eq : (a : ℕ) → a < 256 → sextet0 a ≡ a / 4
unfolding holds_below
sextet0-eq a h = agree 256 (λ x. bit_and x 0xfc / 4) (λ x. x / 4) a refl h

pub sextet1-eq : (a b : ℕ) → a < 256 → b < 256 → sextet1 a b ≡ a % 4 * 16 + b / 16
sextet1-eq a b h k =
    rw (low_two a h, high_four b k) (joined (a % 4) (b / 16) (omega arith) (omega arith))

pub sextet2-eq : (b c : ℕ) → b < 256 → c < 256 → sextet2 b c ≡ b % 16 * 4 + c / 64
sextet2-eq b c h k =
    rw (low_four b h, high_two c k) (joined_low (b % 16) (c / 64) (omega arith) (omega arith))

pub sextet3-eq : (c : ℕ) → c < 256 → sextet3 c ≡ c % 64
unfolding holds_below
sextet3-eq c h = agree 256 (λ x. bit_and x 0x3f) (λ x. x % 64) c refl h
