-- ===== src/Strings/Join/Memory.antt =====
-- Writes into the target, and what the target then holds.
use ervan.Base.{
  ℕ, zero, suc, ◌+◌, ◌-◌, ◌≤◌, ◌≡◌, refl, sym, ap, ◌∙◌, Bool-cases, inl, inr, ltb, ltb→lt,
  ltb_false→le, Bytes, length, take, set, [], ◌∷◌, ◌++◌, arith,
}
use Prim.Native.Nat.{min}
use ervan.Strings.Join.{overwrite, cpy_len}

pub length-overwrite :
    (t : Bytes) (offset : ℕ) (src : Bytes) → length (overwrite t offset src) ≡ length t
unfolding overwrite
length-overwrite [] offset src = refl
length-overwrite (x ∷ xs) zero [] = refl
length-overwrite (x ∷ xs) zero (c ∷ cs) = omega (arith, length-overwrite xs zero cs)
length-overwrite (x ∷ xs) (suc offset) src = omega (arith, length-overwrite xs offset src)

-- The target holds `s` as far as it reaches.
abbrev pub Stores : Bytes → Bytes → Type 0
Stores t s = take (length s) t ≡ take (length t) s

pub take-nil : (n : ℕ) → take {A = ℕ} n [] ≡ []
take-nil zero = refl
take-nil (suc n) = refl

overwrite-zero-Stores :
    (t src : Bytes) → take (length src) (overwrite t zero src) ≡ take (length t) src
unfolding overwrite
overwrite-zero-Stores [] [] = refl
overwrite-zero-Stores [] (c ∷ cs) = refl
overwrite-zero-Stores (x ∷ xs) [] = refl
overwrite-zero-Stores (x ∷ xs) (c ∷ cs) = ap (◌∷◌ c) (overwrite-zero-Stores xs cs)

overwrite-Stores :
    (t s src : Bytes)
    → Stores t s
    → take (length (s ++ src)) (overwrite t (length s) src) ≡ take (length t) (s ++ src)
unfolding overwrite
overwrite-Stores [] s src h = take-nil (length (s ++ src))
overwrite-Stores (x ∷ xs) [] src h = overwrite-zero-Stores (x ∷ xs) src
overwrite-Stores (x ∷ xs) (c ∷ s) src h =
    ap (◌∷◌ x) (overwrite-Stores xs s src (cc)) ∙ ap (λ z. z ∷ take (length xs) (s ++ src)) (cc)

-- Copying no more than there is room for is copying all.
overwrite-take :
    (t : Bytes) (offset n : ℕ) (src : Bytes)
    → length t ≤ offset + n
    → overwrite t offset (take n src) ≡ overwrite t offset src
unfolding overwrite
overwrite-take [] offset n src h = refl
overwrite-take (x ∷ xs) zero zero src h = absurd (omega arith)
overwrite-take (x ∷ xs) zero (suc n) [] h = refl
overwrite-take (x ∷ xs) zero (suc n) (c ∷ cs) h =
    ap (◌∷◌ c) (overwrite-take xs zero n cs (omega arith))
overwrite-take (x ∷ xs) (suc offset) n src h =
    ap (◌∷◌ x) (overwrite-take xs offset n src (omega arith))

take_all : (n : ℕ) (s : Bytes) → length s ≤ n → take n s ≡ s
take_all zero [] h = refl
take_all zero (c ∷ s) h = absurd (omega arith)
take_all (suc n) [] h = refl
take_all (suc n) (c ∷ s) h = ap (◌∷◌ c) (take_all n s (omega arith))

overwrite_past :
    (t : Bytes) (offset : ℕ) (a b : Bytes)
    → length t ≤ offset
    → overwrite t offset a ≡ overwrite t offset b
unfolding overwrite
overwrite_past [] offset a b h = refl
overwrite_past (x ∷ xs) zero a b h = absurd (omega arith)
overwrite_past (x ∷ xs) (suc offset) a b h = ap (◌∷◌ x) (overwrite_past xs offset a b (omega arith))

overwrite-cpy_len :
    (t : Bytes) (offset : ℕ) (src : Bytes)
    → overwrite t offset (take (cpy_len offset (length t) (length src)) src)
      ≡ overwrite t offset src
overwrite-cpy_len t offset src = elim (Bool-cases (ltb offset (length t))) [
  | inl e ↦ rw e (room (min (length t - offset) (length src)) refl)
  | inr e ↦ overwrite_past t offset _ src (ltb_false→le offset (length t) e)
]
  where
    room :
        (n : ℕ)
        → n ≡ min (length t - offset) (length src)
        → overwrite t offset (take n src) ≡ overwrite t offset src
    room n h = elim (Bool-cases (ltb (length src) (length t - offset))) [
      | inl small ↦
          ap (overwrite t offset)
            (take_all n src (omega (arith, ltb→lt (length src) (length t - offset) small)))
      | inr big ↦
          overwrite-take t offset n src
            (omega (arith, ltb_false→le (length src) (length t - offset) big))
    ]

-- The `memcpy` of `join` extends what the target holds by the source.
pub copy-Stores :
    (t s src : Bytes)
    → Stores t s
    → Stores
        (overwrite t (length s) (take (cpy_len (length s) (length t) (length src)) src))
        (s ++ src)
copy-Stores t s src h =
    rw (overwrite-cpy_len t (length s) src, length-overwrite t (length s) src)
      (overwrite-Stores t s src h)

pub take-take : (n m : ℕ) (s : Bytes) → n ≤ m → take n (take m s) ≡ take n s
take-take zero m s h = refl
take-take (suc n) zero s h = absurd (omega arith)
take-take (suc n) (suc m) [] h = refl
take-take (suc n) (suc m) (c ∷ s) h = ap (◌∷◌ c) (take-take n m s (omega arith))

-- A stored text is read back from the target.
pub Stores-take :
    (t s : Bytes) (n : ℕ) → Stores t s → n ≤ length t → n ≤ length s → take n t ≡ take n s
Stores-take t s n h p q =
    sym (take-take n (length s) t q) ∙ ap (take n) h ∙ take-take n (length t) s p

pub take-set : (n : ℕ) (t : Bytes) (v : ℕ) → take n (set t n v) ≡ take n t
take-set zero t v = refl
take-set (suc n) [] v = refl
take-set (suc n) (x ∷ xs) v = ap (◌∷◌ x) (take-set n xs v)
