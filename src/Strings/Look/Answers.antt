-- ===== src/Strings/Look/Answers.antt =====
-- What a call of `look` answers. Its lengths are numbers of an `int`, here below 2^31.
use ervan.Base.{
  ◌^◌, if_keeps, ltb→lt, ltb_false→le, ltb, ℕ, ◌+◌, ◌-◌, ◌≤◌, ◌<◌, ◌≡◌, refl, subst, sym, ap, ◌∙◌,
  if◌then◌else◌, Bool-cases, inl, inr, append-nil, Bytes, length, length-append, equal, [], ◌∷◌,
  ◌++◌, arith,
}
use ervan.Strings.Join.{push_back}
use ervan.Strings.Look.{
  LoopState, Looked, escaped, terminated, out_of_range, more, at_escape, look_target_len, Stop,
  at_the_escape, at_the_terminator, at_the_end, look_loop, look_stop, look,
}
use ervan.Strings.Look.Stops.{
  ends_with, IsEndOf, Continues, Found, found_escape, found_terminator, found_nothing, find_stop,
  Agrees, look_loop-Agrees, length-push_back,
}

-- How many bytes stand before a terminator of `size` bytes, where `n` bytes with it have been counted.
-- If it began before the counting did, the number is negative, and 64 bits make it a large one.
abbrev pub size_before : ℕ → ℕ → ℕ
size_before n size = if ltb n size then 2 ^ 64 - (size - n) else n - size

-- The answer at the terminator.
abbrev pub ended : LoopState → Bytes → Bytes → Looked
ended st passed rest =
    let len = size_before (st.total_length + (length passed + 1)) (length st.terminator) in
    if ltb st.max_size len then out_of_range rest else terminated len rest

look_target_len-eq :
    (total i size : ℕ)
    → total + i < 2 ^ 31
    → size < 2 ^ 31
    → look_target_len total i size ≡ size_before (total + (i + 1)) size
look_target_len-eq total i size h k = elim (Bool-cases (ltb (total + (i + 1)) size)) [
  | inl e ↦ rw e (let less = ltb→lt (total + (i + 1)) size e in omega arith)
  | inr e ↦ rw e (let more_or_same = ltb_false→le (total + (i + 1)) size e in omega arith)
]

-- What a stop has passed over is shorter than this.
abbrev Within : ℕ → Found → Type 0
Within n (found_escape passed rest) = length passed < n
Within n (found_terminator passed rest) = length passed < n
Within n found_nothing = Unit

find_stop-Within :
    (terminator escape stream passed src : Bytes) (n : ℕ)
    → length passed + length src ≤ n
    → Within n (find_stop terminator escape stream passed src)
unfolding find_stop
find_stop-Within terminator escape stream passed [] n h = tt
find_stop-Within terminator escape stream passed (c ∷ cs) n h =
    if_keeps (Within n) (ends_with (stream ++ c ∷ []) escape) _ _ (λ _. omega arith)
      (λ _.
        if_keeps (Within n) (ends_with (stream ++ c ∷ []) terminator) _ _ (λ _. omega arith)
          (λ _.
            find_stop-Within terminator escape (stream ++ c ∷ []) (passed ++ c ∷ []) cs n
              (omega (arith, length-append passed (c ∷ [])))))

-- The window keeps its size.
abbrev Sized : ℕ → Stop → Type 0
Sized n (at_the_escape check passed rest) = length check ≡ n
Sized n (at_the_terminator check passed rest) = length check ≡ n
Sized n (at_the_end check) = length check ≡ n

look_loop-Sized :
    (terminator escape check passed src : Bytes) (n : ℕ)
    → length check ≡ n
    → Sized n (look_loop terminator escape check passed src)
unfolding look_loop
look_loop-Sized terminator escape check passed [] n h = h
look_loop-Sized terminator escape check passed (c ∷ cs) n h =
    let pushed = push_back check c in
    let size : length pushed ≡ n = length-push_back check c ∙ h in
    if_keeps (Sized n) (at_escape pushed escape) _ _ (λ _. size)
      (λ _.
        if_keeps (Sized n) (equal pushed terminator) _ _ (λ _. size)
          (λ _. look_loop-Sized terminator escape pushed (passed ++ c ∷ []) cs n size))

-- What a call answers, by where the reference stops.
abbrev pub Answers : LoopState → Bytes → Bytes → Found → LoopState × Looked → Type 0
Answers st stream src (found_escape passed rest) (st', answer) =
    (answer ≡ escaped passed rest)
    × (st'.total_length ≡ st.total_length + (length passed + 1))
    × Continues stream src st'.t_check rest
Answers st stream src (found_terminator passed rest) (st', answer) =
    (answer ≡ ended st passed rest) × (st'.total_length ≡ 0) × Continues stream src st'.t_check rest
Answers st stream src found_nothing (st', answer) =
    (answer ≡ more)
    × (st'.total_length ≡ st.total_length + length src)
    × Continues stream src st'.t_check []

look_stop-Answers :
    (st : LoopState) (stream src : Bytes) (stop : Stop) (found : Found)
    → st.total_length + length src < 2 ^ 31
    → length st.terminator < 2 ^ 31
    → Within (length src) found
    → Sized (length st.terminator) stop
    → Agrees stream src stop found
    → Answers st stream src found (look_stop st src stop)
unfolding look_stop
look_stop-Answers st stream src (at_the_escape check passed rest) (found_escape p r) h n w z
      (e, f, k) =
    (
      ap (λ q. escaped q rest) e ∙ ap (escaped p) f,
      ap (λ q. st.total_length + (length q + 1)) e,
      subst (Continues stream src check) f k,
    )
look_stop-Answers st stream src (at_the_terminator check passed rest) (found_terminator p r) h n w z
      (e, f, k) =
    let len : look_target_len st.total_length (length passed) (length check)
        ≡ size_before (st.total_length + (length p + 1)) (length st.terminator) =
      ap (λ q. look_target_len st.total_length (length q) (length check)) e
      ∙ ap (look_target_len st.total_length (length p)) z
      ∙ look_target_len-eq st.total_length (length p) (length st.terminator) (omega arith) n in
    (
      ap (λ l. if ltb st.max_size l then out_of_range rest else terminated l rest) len
          ∙ ap (ended st p) f,
      refl,
      subst (Continues stream src check) f k,
    )
look_stop-Answers st stream src (at_the_end check) found_nothing h n w z k = (refl, refl, k)
look_stop-Answers st stream src (at_the_escape check passed rest) (found_terminator p r) h n w z k =
    absurd k
look_stop-Answers st stream src (at_the_escape check passed rest) found_nothing h n w z k = absurd k
look_stop-Answers st stream src (at_the_terminator check passed rest) (found_escape p r) h n w z k =
    absurd k
look_stop-Answers st stream src (at_the_terminator check passed rest) found_nothing h n w z k =
    absurd k
look_stop-Answers st stream src (at_the_end check) (found_escape p r) h n w z k = absurd k
look_stop-Answers st stream src (at_the_end check) (found_terminator p r) h n w z k = absurd k

-- If the window is not empty, the terminator has its size, the escape has no more, the window is the
-- end of the stream before this piece, and the bytes counted and the terminator are less than 2 GiB: a
-- call on the piece stops where the whole stream first ends with the escape, or else with the
-- terminator, as a loop that keeps the stream would. It answers what it has passed over; or how many
-- bytes were counted before the terminator, or that they are over the limit; with the rest of the
-- piece. A terminator that began before the counting did counts as a large number. The window is again
-- the end of the stream up to there, and the count is that of the bytes since the last terminator.
pub look-Answers :
    (st : LoopState) (stream src : Bytes)
    → 0 < length st.t_check
    → length st.terminator ≡ length st.t_check
    → length st.escape ≤ length st.t_check
    → IsEndOf st.t_check stream
    → st.total_length + length src < 2 ^ 31
    → length st.terminator < 2 ^ 31
    → Answers st stream src (find_stop st.terminator st.escape stream [] src) (look st src)
unfolding look find_stop
look-Answers st stream [] h t e (front, k) small n =
    (refl, omega arith, ([], refl, (front, append-nil stream ∙ k)))
look-Answers st stream (c ∷ cs) h t e f small n =
    look_stop-Answers st stream (c ∷ cs) _ (find_stop st.terminator st.escape stream [] (c ∷ cs))
      small n
      (find_stop-Within st.terminator st.escape stream [] (c ∷ cs) (length (c ∷ cs)) (omega arith))
      (look_loop-Sized st.terminator st.escape st.t_check [] (c ∷ cs) (length st.terminator)
        (sym t))
      (look_loop-Agrees st.terminator st.escape st.t_check stream [] (c ∷ cs) h t e f)
