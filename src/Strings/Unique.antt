-- ===== src/Strings/Unique.antt =====
-- common/src/string.cpp: `get_unique_filename`. The process's id, the time and the random number are
-- parameters; the `static int counter` is the state. Where the source's counter overflows, from 2^31
-- calls on, the definitions here do not say what happens.
pub mod Names
mod Examples
use ervan.Base.{ℕ, zero, suc, ◌+◌, ◌/◌, ◌%◌, ltb, if◌then◌else◌, Bytes, List, [], ◌∷◌, ◌++◌, codes}

-- `{}` of std::format for a number that is not negative: decimal digits, on fuel.
pub digits : ℕ → ℕ → Bytes
digits zero n = []
digits (suc fuel) n =
    let front = digits fuel (n / 10) in
    if ltb n 10 then (b'0' + n) ∷ [] else front ++ ((b'0' + n % 10) ∷ [])

pub decimal : ℕ → Bytes
decimal n = digits (suc n) n

-- What a call takes from outside.
pub record Moment : Type 0 where
  pub time : ℕ
  pub rand : ℕ

pub file_name_of : Bytes → ℕ → Moment → ℕ → Bytes
file_name_of prefix pid m counter =
    prefix
    ++ (b'.'
        ∷ (decimal pid
            ++ (b'.' ∷ (decimal m.time ++ (b'.' ∷ (decimal counter ++ (b'.' ∷ decimal m.rand)))))))

-- The name, and the counter behind the call.
pub get_unique_filename : Bytes → ℕ → Moment → ℕ → Bytes × ℕ
get_unique_filename prefix pid m counter = (file_name_of prefix pid m counter, counter + 1)

-- The names of a run of calls in one process.
pub all_names : Bytes → ℕ → List Moment → ℕ → List Bytes
all_names prefix pid [] counter = []
all_names prefix pid (m ∷ ms) counter =
    let (name, counter') = get_unique_filename prefix pid m counter in
    name ∷ all_names prefix pid ms counter'
