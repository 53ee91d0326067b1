-- ===== src/Strings/Join/Shrinks.antt =====
-- What is left of the source behind a call of `join`, whatever the terminator.
use ervan.Base.{ℕ, suc, ◌+◌, ◌<◌, Bool-cases, inl, inr, equal, ltb, Bytes, length, [], ◌∷◌, arith}
use ervan.Strings.Join.{LineBuffer, push_back, Scan, hit, miss, scan, target_len, after_scan, join}

abbrev Left : ℕ → Scan → Type 0
Left n (miss check end) = Unit
Left n (hit check end rest) = length rest < n

Left-suc : (n : ℕ) (r : Scan) → Left n r → Left (suc n) r
Left-suc n (miss check end) h = tt
Left-suc n (hit check end rest) h = omega arith

scan-Left :
    (terminator check : Bytes) (offset c : ℕ) (cs : Bytes)
    → Left (suc (length cs)) (scan terminator check offset (c ∷ cs))
unfolding scan
scan-Left terminator check offset c [] = elim (Bool-cases (equal (push_back check c) terminator)) [
  | inl e ↦ rw e (omega arith)
  | inr e ↦ rw e tt
]
scan-Left terminator check offset c (d ∷ ds) =
    elim (Bool-cases (equal (push_back check c) terminator)) [
      | inl e ↦ rw e (omega arith)
      | inr e ↦ rw e (
          Left-suc (suc (length ds)) _ (scan-Left terminator (push_back check c) (offset + 1) d ds))
    ]

after_scan-rest :
    (n : ℕ) (t : Bytes) (r : Scan) → Left (suc n) r → length (after_scan t r).rest < suc n
unfolding after_scan
after_scan-rest n t (miss check end) h = omega arith
after_scan-rest n t (hit check end rest) h =
    elim (Bool-cases (ltb (length t) (target_len end check))) [ inl e ↦ rw e h | inr e ↦ rw e h ]

-- A call on a source that is not empty takes at least one byte.
pub join-rest :
    (b : LineBuffer) (c : ℕ) (cs : Bytes) (offset : ℕ) (terminator : Bytes)
    → length (join b (c ∷ cs) offset terminator).rest < suc (length cs)
unfolding join
join-rest b c cs offset terminator =
    after_scan-rest (length cs) _ _ (scan-Left terminator b.check offset c cs)
