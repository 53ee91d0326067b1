-- ===== src/Strings/Look.antt =====
-- common/src/string.cpp: `look`, with `loop_state` and `loop_result` of
-- common/include/ervan/string.hpp. The terminator is as long as the window `t_check`, and the escape is
-- no longer. `total_length`, an `int` in
-- the source, is a number here: from 2^31 on the definitions do not say what happens.
pub mod Stops
pub mod Answers
mod Examples
use ervan.Base.{
  ℕ, ◌+◌, ◌-◌, ◌%◌, ◌^◌, Bool, ltb, if◌then◌else◌, Bytes, length, drop, equal, [], ◌∷◌, ◌++◌,
}
use ervan.Strings.Join.{push_back}

pub record LoopState : Type 0 where
  pub t_check : Bytes
  pub max_size : ℕ
  pub total_length : ℕ
  pub max_line_length : ℕ
  pub line_length : ℕ
  pub terminator : Bytes
  pub escape : Bytes

-- loop_state::reset
pub reset_lengths : LoopState → LoopState
reset_lengths st = record st { total_length = 0; line_length = 0 }

pub remaining_space : LoopState → ℕ
remaining_space st = if ltb st.max_size st.total_length then 0 else st.max_size - st.total_length

-- `loop_result`. A result for the terminator is a span that starts at the window: only its size is
-- here. `more` is the null span, with nothing left.
pub data Looked : Type 0 where
  escaped : Bytes → Bytes → Looked
  terminated : ℕ → Bytes → Looked
  out_of_range : Bytes → Looked
  more : Looked

-- memcmp(state.t_check.end() - state.escape.size(), state.escape.begin(), state.escape.size()) == 0
abbrev pub at_escape : Bytes → Bytes → Bool
at_escape check escape = equal (drop (length check - length escape) check) escape

-- The loop: where it stops, with the window, what it has passed over and what is behind.
pub data Stop : Type 0 where
  at_the_escape at_the_terminator : Bytes → Bytes → Bytes → Stop
  at_the_end : Bytes → Stop

pub look_loop : Bytes → Bytes → Bytes → Bytes → Bytes → Stop
look_loop terminator escape check passed [] = at_the_end check
look_loop terminator escape check passed (c ∷ cs) =
    let pushed = push_back check c in
    let next = look_loop terminator escape pushed (passed ++ c ∷ []) cs in
    if at_escape pushed escape
    then at_the_escape pushed passed cs
    else if equal pushed terminator
    then at_the_terminator pushed passed cs
    else next

-- (state.total_length + i) - state.t_check.size() + 1, in 64 bits
abbrev pub look_target_len : ℕ → ℕ → ℕ → ℕ
look_target_len total i window = (total + i + (2 ^ 64 - window) + 1) % 2 ^ 64

pub look_stop : LoopState → Bytes → Stop → LoopState × Looked
look_stop st src (at_the_escape check passed rest) = (
  record st { t_check = check; total_length = st.total_length + (length passed + 1) },
  escaped passed rest,
)
look_stop st src (at_the_terminator check passed rest) =
    let len = look_target_len st.total_length (length passed) (length check) in
    (
      record st { t_check = check; total_length = 0 },
      if ltb st.max_size len then out_of_range rest else terminated len rest,
    )
look_stop st src (at_the_end check) =
    (record st { t_check = check; total_length = st.total_length + length src }, more)

pub look : LoopState → Bytes → LoopState × Looked
look st [] = (st, more)
look st (c ∷ cs) = look_stop st (c ∷ cs) (look_loop st.terminator st.escape st.t_check [] (c ∷ cs))
