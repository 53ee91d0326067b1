-- ===== src/Strings/Look/Stops.antt =====
-- `look` compares a window only, but stops where the whole stream ends with the escape or terminator.
use ervan.Base.{
  ℕ, zero, suc, ◌+◌, ◌-◌, ◌≤◌, ◌<◌, ◌≡◌, refl, sym, ap, ◌∙◌, Bool, if◌then◌else◌, Bool-cases, inl,
  inr, append-nil, Bytes, length, length-append, drop, equal, append_assoc, [], ◌∷◌, ◌++◌, arith,
}
use ervan.Strings.Join.{push_back}
use ervan.Strings.Look.{at_escape, Stop, at_the_escape, at_the_terminator, at_the_end, look_loop}

-- Whether a stream ends with these bytes.
abbrev pub ends_with : Bytes → Bytes → Bool
ends_with s e = equal (drop (length s - length e) s) e

-- Where a loop that kept the whole stream would stop.
pub data Found : Type 0 where
  found_escape found_terminator : Bytes → Bytes → Found
  found_nothing : Found

unfoldable pub find_stop : Bytes → Bytes → Bytes → Bytes → Bytes → Found
find_stop terminator escape stream passed [] = found_nothing
find_stop terminator escape stream passed (c ∷ cs) =
    let next = find_stop terminator escape (stream ++ c ∷ []) (passed ++ c ∷ []) cs in
    if ends_with (stream ++ c ∷ []) escape
    then found_escape passed cs
    else if ends_with (stream ++ c ∷ []) terminator
    then found_terminator passed cs
    else next

-- The window is the end of the stream.
abbrev pub IsEndOf : Bytes → Bytes → Type 0
IsEndOf check stream = (front : Bytes) × (stream ≡ front ++ check)

drop-front : (front s : Bytes) (n k : ℕ) → n ≡ length front + k → drop n (front ++ s) ≡ drop k s
drop-front [] s n k h = ap (λ m. drop m s) (h ∙ omega arith)
drop-front (x ∷ front) s zero k h = absurd (omega arith)
drop-front (x ∷ front) s (suc n) k h = drop-front front s n k (omega arith)

ends_with-IsEndOf :
    (check stream e : Bytes)
    → length e ≤ length check
    → IsEndOf check stream
    → ends_with stream e ≡ at_escape check e
ends_with-IsEndOf check stream e h (front, k) = rw k (
    ap (λ s. equal s e)
      (drop-front front check (length (front ++ check) - length e) (length check - length e)
        (omega (arith, length-append front check))))

at_escape-whole : (check e : Bytes) → length e ≡ length check → at_escape check e ≡ equal check e
at_escape-whole check e h =
    let none_over : length check - length e ≡ 0 = omega arith in
    ap (λ n. equal (drop n check) e) none_over

push_back-eq : (x : ℕ) (check : Bytes) (c : ℕ) → push_back (x ∷ check) c ≡ check ++ c ∷ []
unfolding push_back
push_back-eq x [] c = refl
push_back-eq x (y ∷ check) c = ap (◌∷◌ y) (push_back-eq y check c)

pub length-push_back : (check : Bytes) (c : ℕ) → length (push_back check c) ≡ length check
unfolding push_back
length-push_back [] c = refl
length-push_back (x ∷ []) c = refl
length-push_back (x ∷ y ∷ check) c = omega (arith, length-push_back (y ∷ check) c)

push_back-IsEndOf :
    (check stream : Bytes) (c : ℕ)
    → 0 < length check
    → IsEndOf check stream
    → IsEndOf (push_back check c) (stream ++ c ∷ [])
push_back-IsEndOf [] stream c h f = absurd (omega arith)
push_back-IsEndOf (x ∷ check) stream c h (front, k) = (
  front ++ x ∷ [],
  ap (λ s. s ++ c ∷ []) k
      ∙ append_assoc front (x ∷ check) (c ∷ [])
      ∙ sym (append_assoc front (x ∷ []) (check ++ c ∷ []))
      ∙ ap (λ w. (front ++ x ∷ []) ++ w) (sym (push_back-eq x check c)),
)

-- What has been used of the source, and that the window is the end of the stream up to there.
abbrev pub Continues : Bytes → Bytes → Bytes → Bytes → Type 0
Continues stream src check rest =
    (used : Bytes) × (src ≡ used ++ rest) × IsEndOf check (stream ++ used)

Continues-cons :
    (stream src check rest : Bytes) (c : ℕ)
    → Continues (stream ++ c ∷ []) src check rest
    → Continues stream (c ∷ src) check rest
Continues-cons stream src check rest c (used, e, (front, w)) =
    (c ∷ used, ap (◌∷◌ c) e, (front, sym (append_assoc stream (c ∷ []) used) ∙ w))

-- The same stop.
abbrev pub Agrees : Bytes → Bytes → Stop → Found → Type 0
Agrees stream src (at_the_escape check passed rest) (found_escape passed' rest') =
    (passed ≡ passed') × (rest ≡ rest') × Continues stream src check rest
Agrees stream src (at_the_terminator check passed rest) (found_terminator passed' rest') =
    (passed ≡ passed') × (rest ≡ rest') × Continues stream src check rest
Agrees stream src (at_the_end check) found_nothing = Continues stream src check []
Agrees stream src _ _ = ⊥

Agrees-cons :
    (stream src : Bytes) (c : ℕ) (stop : Stop) (found : Found)
    → Agrees (stream ++ c ∷ []) src stop found
    → Agrees stream (c ∷ src) stop found
Agrees-cons stream src c (at_the_escape check passed rest) (found_escape p r) (e, f, k) =
    (e, f, Continues-cons stream src check rest c k)
Agrees-cons stream src c (at_the_terminator check passed rest) (found_terminator p r) (e, f, k) =
    (e, f, Continues-cons stream src check rest c k)
Agrees-cons stream src c (at_the_end check) found_nothing k = Continues-cons stream src check [] c k
Agrees-cons stream src c (at_the_escape check passed rest) (found_terminator p r) k = k
Agrees-cons stream src c (at_the_escape check passed rest) found_nothing k = k
Agrees-cons stream src c (at_the_terminator check passed rest) (found_escape p r) k = k
Agrees-cons stream src c (at_the_terminator check passed rest) found_nothing k = k
Agrees-cons stream src c (at_the_end check) (found_escape p r) k = k
Agrees-cons stream src c (at_the_end check) (found_terminator p r) k = k

module _ (terminator escape : Bytes) where
  pub look_loop-Agrees :
      (check stream passed src : Bytes)
      → 0 < length check
      → length terminator ≡ length check
      → length escape ≤ length check
      → IsEndOf check stream
      → Agrees stream src
          (look_loop terminator escape check passed src)
          (find_stop terminator escape stream passed src)
  unfolding look_loop find_stop
  look_loop-Agrees check stream passed [] h t e (front, k) =
      ([], refl, (front, append-nil stream ∙ k))
  look_loop-Agrees check stream passed (c ∷ cs) h t e f =
      let pushed = push_back check c in
      let size = length-push_back check c in
      let g = push_back-IsEndOf check stream c h f in
      let x = ends_with-IsEndOf pushed (stream ++ c ∷ []) escape (omega (arith, size)) g in
      let y =
        ends_with-IsEndOf pushed (stream ++ c ∷ []) terminator (omega (arith, size)) g
        ∙ at_escape-whole pushed terminator (omega (arith, size)) in
      let now : Continues stream (c ∷ cs) pushed cs = (c ∷ [], refl, g) in
      let later = Agrees-cons stream cs c _ _ (
        look_loop-Agrees pushed (stream ++ c ∷ []) (passed ++ c ∷ []) cs (omega (arith, size))
          (omega (arith, size)) (omega (arith, size)) g) in
      rw x (
        rw y (elim (Bool-cases (at_escape pushed escape)) [
          | inl a ↦ rw a (refl, refl, now)
          | inr a ↦ rw a (elim (Bool-cases (equal pushed terminator)) [
            | inl b ↦ rw b (refl, refl, now)
            | inr b ↦ rw b later
          ])
        ]))
