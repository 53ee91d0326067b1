-- ===== src/Strings/Join/Lines.antt =====
-- What `join` is for, on whole streams: bytes are cut into lines at every CR LF.
use ervan.Base.{
  ℕ, ◌-◌, ◌≡◌, refl, ap, Bool, false, ◌&&◌, ◌==◌, Bool-cases, inl, inr, if◌then◌else◌, Bytes,
  length, take, List, [], ◌∷◌, ◌++◌, Option, none, some,
}

-- Whether the last byte is a CR; `cr` is the answer for no byte.
abbrev pub ends_cr : Bool → Bytes → Bool
ends_cr cr [] = cr
ends_cr cr (c ∷ cs) = ends_cr (c == b'\r') cs

pub ends_cr-append : (cr : Bool) (a b : Bytes) → ends_cr cr (a ++ b) ≡ ends_cr (ends_cr cr a) b
ends_cr-append cr [] b = refl
ends_cr-append cr (c ∷ a) b = ends_cr-append (c == b'\r') a b

-- The bytes of a line, whose CR is the last one of `pending`.
abbrev pub body : Bytes → Bytes
body pending = take (length pending - 1) pending

-- The lines that `src` completes, where `pending` has come before.
abbrev pub lines : Bytes → Bytes → List Bytes
lines pending [] = []
lines pending (c ∷ cs) =
    if ends_cr false pending && c == b'\n'
    then body pending ∷ lines [] cs
    else lines (pending ++ c ∷ []) cs

-- What is left of an unfinished line.
abbrev pub leftover : Bytes → Bytes → Bytes
leftover pending [] = pending
leftover pending (c ∷ cs) =
    leftover (if ends_cr false pending && c == b'\n' then [] else pending ++ c ∷ []) cs

pub lines-append :
    (pending a b : Bytes) → lines pending (a ++ b) ≡ lines pending a ++ lines (leftover pending a) b
lines-append pending [] b = refl
lines-append pending (c ∷ a) b = elim (Bool-cases (ends_cr false pending && c == b'\n')) [
  | inl e ↦ rw e (ap (◌∷◌ (body pending)) (lines-append [] a b))
  | inr e ↦ rw e (lines-append (pending ++ c ∷ []) a b)
]

-- The first LF behind a CR: the bytes up to it, and the rest.
abbrev pub put_back : ℕ → Option (Bytes × Bytes) → Option (Bytes × Bytes)
put_back c none = none
put_back c (some (used, rest)) = some (c ∷ used, rest)

abbrev pub first_line : Bool → Bytes → Option (Bytes × Bytes)
first_line cr [] = none
first_line cr (c ∷ cs) =
    if cr && c == b'\n' then some (c ∷ [], cs) else put_back c (first_line (c == b'\r') cs)
