-- ===== src/Strings/Unique/Names.antt =====
-- No name is given twice.
use ervan.Base.{
  ℕ, zero, suc, ◌+◌, ◌-◌, ◌*◌, ◌/◌, ◌%◌, ◌^◌, length, ◌<◌, ◌≡◌, ◌≢◌, refl, sym, ap, ◌∙◌, false,
  ◌==◌, Bool-cases, inl, inr, ltb, ltb_false→le, if_keeps, All, append_assoc, Bytes, List, [], ◌∷◌,
  ◌++◌, arith,
}
use ervan.Strings.Unique.{digits, decimal, Moment, file_name_of, get_unique_filename, all_names}

-- The number that decimal digits stand for.
abbrev value_onto : ℕ → Bytes → ℕ
value_onto acc [] = acc
value_onto acc (c ∷ cs) = value_onto (acc * 10 + (c - b'0')) cs

value_onto-append :
    (acc : ℕ) (a b : Bytes) → value_onto acc (a ++ b) ≡ value_onto (value_onto acc a) b
value_onto-append acc [] b = refl
value_onto-append acc (c ∷ a) b = value_onto-append (acc * 10 + (c - b'0')) a b

value_onto-digits : (fuel n : ℕ) → n < fuel → value_onto 0 (digits fuel n) ≡ n
unfolding digits
value_onto-digits zero n h = absurd (omega arith)
value_onto-digits (suc fuel) n h = elim (Bool-cases (ltb n 10)) [
  | inl e ↦ rw e (omega arith)
  | inr e ↦
      let ten = ltb_false→le n 10 e in
      rw e (
        value_onto-append 0 (digits fuel (n / 10)) ((b'0' + n % 10) ∷ [])
        ∙ omega (arith, value_onto-digits fuel (n / 10) (omega arith)))
]

abbrev NoDot : Bytes → Type 0
NoDot = All (λ c. (c == b'.') ≡ false)

NoDot-append : (a b : Bytes) → NoDot a → NoDot b → NoDot (a ++ b)
NoDot-append [] b h k = k
NoDot-append (c ∷ a) b (e, h) k = (e, NoDot-append a b h k)

digits-NoDot : (fuel n : ℕ) → NoDot (digits fuel n)
unfolding digits
digits-NoDot zero n = tt
digits-NoDot (suc fuel) n =
    if_keeps NoDot (ltb n 10) _ _ (λ e. (ground arith, tt))
      (λ e. NoDot-append (digits fuel (n / 10)) _ (digits-NoDot fuel (n / 10)) (ground arith, tt))

decimal-same : (a b : ℕ) → decimal a ≡ decimal b → a ≡ b
unfolding decimal
decimal-same a b e =
    sym (value_onto-digits (suc a) a (omega arith))
    ∙ ap (value_onto 0) e
    ∙ value_onto-digits (suc b) b (omega arith)

-- Up to the first dot.
split_dot :
    (a b x y : Bytes) → NoDot a → NoDot b → a ++ (b'.' ∷ x) ≡ b ++ (b'.' ∷ y) → (a ≡ b) × (x ≡ y)
split_dot [] [] x y h k e = (refl, cc)
split_dot [] (d ∷ b) x y h (f, k) e = let q : b'.' ≡ d = cc in ground arith
split_dot (c ∷ a) [] x y (f, h) k e = let q : c ≡ b'.' = cc in ground arith
split_dot (c ∷ a) (d ∷ b) x y (f, h) (g, k) e = let (p, q) = split_dot a b x y h k cc in (cc, q)

cancel : (p x y : Bytes) → p ++ x ≡ p ++ y → x ≡ y
cancel [] x y e = e
cancel (c ∷ p) x y e = cancel p x y cc

decimal-NoDot : (n : ℕ) → NoDot (decimal n)
unfolding decimal
decimal-NoDot n = digits-NoDot (suc n) n

-- Equal names have equal counters, whatever the times and the random numbers.
file_name_of-same :
    (prefix : Bytes) (pid : ℕ) (m m' : Moment) (i j : ℕ)
    → file_name_of prefix pid m i ≡ file_name_of prefix pid m' j
    → i ≡ j
unfolding file_name_of
file_name_of-same prefix pid m m' i j e =
    let after_prefix =
      cancel (prefix ++ (b'.' ∷ [])) _ _
        (append_assoc prefix (b'.' ∷ []) _ ∙ e ∙ sym (append_assoc prefix (b'.' ∷ []) _)) in
    let (pids, after_pid) =
      split_dot (decimal pid) (decimal pid) _ _ (decimal-NoDot pid) (decimal-NoDot pid)
        after_prefix in
    let (times, after_time) =
      split_dot (decimal m.time) (decimal m'.time) _ _ (decimal-NoDot m.time)
        (decimal-NoDot m'.time) after_pid in
    let (counters, rands) =
      split_dot (decimal i) (decimal j) (decimal m.rand) (decimal m'.rand) (decimal-NoDot i)
        (decimal-NoDot j) after_time in
    decimal-same i j counters

abbrev pub Distinct : List Bytes → Type 0
Distinct [] = Unit
Distinct (x ∷ xs) = All (λ y. y ≢ x) xs × Distinct xs

module _ (prefix : Bytes) (pid : ℕ) where
  later_differ :
      (m : Moment) (i : ℕ) (ms : List Moment) (j : ℕ)
      → i < j
      → All (λ y. y ≢ file_name_of prefix pid m i) (all_names prefix pid ms j)
  unfolding all_names get_unique_filename
  later_differ m i [] j h = tt
  later_differ m i (n ∷ ms) j h = (
    λ e. omega (arith, file_name_of-same prefix pid n m j i e),
    later_differ m i ms (j + 1) (omega arith),
  )

  -- As long as the counter, an `int`, does not overflow, get_unique_filename never gives the same name
  -- twice in a process with one prefix, whatever the clock and the random numbers are.
  pub all_names-Distinct :
      (ms : List Moment) (counter : ℕ)
      → counter + length ms < 2 ^ 31
      → Distinct (all_names prefix pid ms counter)
  unfolding all_names get_unique_filename
  all_names-Distinct [] counter h = tt
  all_names-Distinct (m ∷ ms) counter h = (
    later_differ m counter ms (counter + 1) (omega arith),
    all_names-Distinct ms (counter + 1) (omega arith),
  )
