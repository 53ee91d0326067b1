-- ===== src/Strings/Join/Scans.antt =====
-- The loop of `join` with the terminator CR LF finds the first LF behind a CR.
use ervan.Base.{
  ℕ, ◌+◌, ◌≡◌, refl, ap, ◌∙◌, Bool, true, ◌&&◌, ◌==◌, Bool-cases, inl, inr, Bytes, length, equal,
  equal_iff, [], ◌∷◌, ◌++◌, Option, none, some, arith,
}
use ervan.Strings.Join.{Scan, hit, miss, scan, crlf}
use ervan.Strings.Join.Lines.{ends_cr, first_line, put_back}

-- Two bytes, of which the second is a CR exactly if `cr` says so.
abbrev pub Window : Bool → Bytes → Type 0
Window cr check = (x : ℕ) × (y : ℕ) × (check ≡ x ∷ y ∷ []) × ((y == b'\r') ≡ cr)

-- What the scan answers, by what `first_line` finds.
abbrev pub Scanned : Bool → ℕ → Bytes → Option (Bytes × Bytes) → Scan → Type 0
Scanned cr offset src none (miss check end) =
    Window (ends_cr cr src) check × (end ≡ offset + length src)
Scanned cr offset src (some (used, rest)) (hit check end rest') =
    (check ≡ crlf) × (end + 1 ≡ offset + length used) × (rest' ≡ rest) × (src ≡ used ++ rest)
Scanned cr offset src _ _ = ⊥

Scanned-cons :
    (cr : Bool) (c offset : ℕ) (src : Bytes) (o : Option (Bytes × Bytes)) (r : Scan)
    → Scanned (c == b'\r') (offset + 1) src o r
    → Scanned cr offset (c ∷ src) (put_back c o) r
Scanned-cons cr c offset src none (miss check end) (w, e) = (w, omega arith)
Scanned-cons cr c offset src none (hit check end rest) h = h
Scanned-cons cr c offset src (some (used, rest)) (miss check end) h = h
Scanned-cons cr c offset src (some (used, rest)) (hit check end rest') (k, e, r, s) =
    (k, omega arith, r, ap (◌∷◌ c) s)

completes : (y c : ℕ) (cr : Bool) → (y == b'\r') ≡ cr → equal (y ∷ c ∷ []) crlf ≡ (cr && c == b'\n')
completes y c cr k = ground arith

completed : (y c : ℕ) → equal (y ∷ c ∷ []) crlf ≡ true → y ∷ c ∷ [] ≡ crlf
completed y c h = (equal_iff (y ∷ c ∷ []) crlf).0 h

pub scan-Scanned :
    (cr : Bool) (check : Bytes) (offset : ℕ) (src : Bytes)
    → Window cr check
    → Scanned cr offset src (first_line cr src) (scan crlf check offset src)
unfolding scan
scan-Scanned cr check offset [] w = (w, omega arith)
scan-Scanned cr check offset (c ∷ cs) (x, y, e, k) =
    let next = scan-Scanned (c == b'\r') (y ∷ c ∷ []) (offset + 1) cs (y, c, refl, refl) in
    let test = completes y c cr k in
    rw e (
      rw test (elim (Bool-cases (cr && c == b'\n')) [
        | inl h ↦ rw h (completed y c (test ∙ h), omega arith, refl, refl)
        | inr h ↦ rw h (Scanned-cons cr c offset cs (first_line (c == b'\r') cs) _ next)
      ]))
