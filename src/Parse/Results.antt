-- ===== src/Parse/Results.antt =====
-- common/include/ervan/parse.hpp: the results of the parsers. A span is the list of its bytes. All
-- spans of one parse end at the same place, so a pointer into the input is the rest from there on,
-- and the range between two pointers is `between`.
use ervan.Base.{ℕ, ◌-◌, Bytes, length, take, [], leb, if◌then◌else◌, ◌≡◌, refl, ap, subst}

-- A result that converts to `true` is `ok`. `overrun`: the parser read past the byte behind the
-- span, which the source leaves undefined. `exhausted`: a loop's fuel ran out.
pub data Outcome {ℓ} (A : Type ℓ) : Type ℓ where
  ok : A → Outcome A
  malformed overrun exhausted : Outcome A

infixl 5 ◌>>=◌
abbrev pub ◌>>=◌ {ℓ κ} : {A : Type ℓ} {B : Type κ} → Outcome A → (A → Outcome B) → Outcome B
ok a >>= f = f a
malformed >>= f = malformed
overrun >>= f = overrun
exhausted >>= f = exhausted

-- What a parse that succeeds has read first, and then.
pub >>=-eq-ok {ℓ} :
    {A B : Type ℓ} (first : Outcome A) (next : A → Outcome B) {all : B}
    → (first >>= next) ≡ ok all
    → (read : A) × (first ≡ ok read) × (next read ≡ ok all)
>>=-eq-ok malformed next h = cc
>>=-eq-ok overrun next h = cc
>>=-eq-ok exhausted next h = cc
>>=-eq-ok (ok read) next h = (read, refl, h)

-- A bind whose first part is known.
pub ok-bind {ℓ κ} :
    {A : Type ℓ} {B : Type κ} {m : Outcome A} {a : A} (f : A → Outcome B)
    → m ≡ ok a
    → (m >>= f) ≡ f a
ok-bind f e = ap (λ o. o >>= f) e

-- What holds of a parser's result, if there is one.
abbrev pub Ensures {ℓ κ} : {A : Type ℓ} → (A → Type κ) → Outcome A → Type κ
Ensures P (ok a) = P a
Ensures P malformed = Unit
Ensures P overrun = Unit
Ensures P exhausted = Unit

pub Ensures-bind {ℓ κ} :
    {A B : Type ℓ} (P : B → Type κ) (m : Outcome A) (f : A → Outcome B)
    → ((a : A) → m ≡ ok a → Ensures P (f a))
    → Ensures P (m >>= f)
Ensures-bind P (ok a) f h = h a refl
Ensures-bind P malformed f h = tt
Ensures-bind P overrun f h = tt
Ensures-bind P exhausted f h = tt

pub Ensures-ok {ℓ κ} :
    {A : Type ℓ} (P : A → Type κ) (m : Outcome A) {a : A} → Ensures P m → m ≡ ok a → P a
Ensures-ok P (ok b) h e = subst P (cc) h
Ensures-ok P malformed h e = cc
Ensures-ok P overrun h e = cc
Ensures-ok P exhausted h e = cc

-- A result that the program can act on: the parser ended, and read no foreign memory.
abbrev pub IsSettled {ℓ} : {A : Type ℓ} → Outcome A → Type 0
IsSettled (ok a) = Unit
IsSettled malformed = Unit
IsSettled overrun = ⊥
IsSettled exhausted = ⊥

pub IsSettled-bind {ℓ κ} :
    {A : Type ℓ} {B : Type κ} (m : Outcome A) (f : A → Outcome B)
    → IsSettled m
    → ((a : A) → m ≡ ok a → IsSettled (f a))
    → IsSettled (m >>= f)
IsSettled-bind (ok a) f s h = h a refl
IsSettled-bind malformed f s h = tt
IsSettled-bind overrun f s h = s
IsSettled-bind exhausted f s h = s

-- span(from.begin(), to.begin())
abbrev pub between : Bytes → Bytes → Bytes
between from to = take (length from - length to) from

-- `result`
pub record Slice : Type 0 where
  pub body : Bytes
  pub rest : Bytes

-- result(_base, _rest)
abbrev pub slice : Bytes → Bytes → Slice
slice src rest = record { body = between src rest; rest = rest }

-- `local_part_result` and `domain_result`; the buffer up to its terminating NUL.
pub record Buffered : Type 0 where
  pub body : Bytes
  pub rest : Bytes
  pub buffer : Bytes

-- The sizes of the buffers, their NUL included.
abbrev pub local_part_buffer : ℕ
local_part_buffer = 65

abbrev pub domain_buffer : ℕ
domain_buffer = 256

-- result(src, _rest, size, buffer)
unfoldable pub buffered : ℕ → Bytes → Bytes → ℕ → Outcome Buffered
buffered capacity src rest size =
    if leb capacity size
    then malformed
    else ok (record { body = take size src; rest = rest; buffer = take size src })

pub record Mailbox : Type 0 where
  pub body : Bytes
  pub rest : Bytes
  pub local_part : Buffered
  pub domain : Buffered

abbrev nothing : Buffered
nothing = record { body = []; rest = []; buffer = [] }

-- mailbox_result()
abbrev pub no_mailbox : Mailbox
no_mailbox = record { body = []; rest = []; local_part = nothing; domain = nothing }

pub record Part : Type 0 where
  pub body : Bytes
  pub rest : Bytes
  pub mailbox : Mailbox

pub record EsmtpParam : Type 0 where
  pub body : Bytes
  pub rest : Bytes
  pub key : Slice
  pub value : Slice
