-- ===== src/Parse/Labels/Sound.antt =====
-- What `domain` of common/src/parse.cpp accepts.
use ervan.Base.{
  ℕ, ◌+◌, ◌<◌, ◌≡◌, refl, sym, ap, ◌∙◌, ◌⊎◌, inl, inr, leb, leb_false→lt, Bool-cases, Bytes, length,
  drop, take-append, drop-append, List, [], ◌∷◌, ◌++◌, append_assoc, append-nil, Bool, true, false,
  ◌==◌, ==_iff, if_keeps, All, Option, none, some, arith,
}
use ervan.Parse.Results.{Outcome, ok, malformed, Buffered, buffered}
use ervan.Parse.{domain, domain_size, domain_of_size}
use ervan.Parse.Labels.{ldh, IsLabel, dotted, Ends, domain_size-ldh, not-ldh}

-- Labels joined by dots, up to where the domain ends; or at the end of the input, where nothing at all
-- and a trailing dot are taken too.
abbrev pub IsDomain : Bytes → Bytes → Type 0
IsDomain body rest =
    ((body ≡ []) × (rest ≡ []))
    ⊎ ((l : Bytes) × (ls : List Bytes) × IsLabel l
        × All IsLabel ls
        × (((body ≡ dotted l ls) × Ends rest)
            ⊎ ((body ≡ dotted l ls ++ (b'.' ∷ [])) × (rest ≡ []))))

-- What follows a part of a label.
abbrev Follows : Bytes → Bytes → Type 0
Follows tail rest = ((tail ≡ []) × Ends rest) ⊎ ((u : Bytes) × (tail ≡ b'.' ∷ u) × IsDomain u rest)

abbrev Continued : Bytes → Bytes → Type 0
Continued used rest =
    (run : Bytes) × (tail : Bytes) × All (λ c. ldh c ≡ true) run
    × (used ≡ run ++ tail)
    × Follows tail rest

abbrev Shape : Bool → Bytes → Bytes → Type 0
Shape true used rest = IsDomain used rest
Shape false used rest = Continued used rest

-- A label, and what follows it.
label-IsDomain : (l tail rest : Bytes) → IsLabel l → Follows tail rest → IsDomain (l ++ tail) rest
label-IsDomain l tail rest h (inl (e, k)) =
    inr (l, [], h, tt, inl (ap (◌++◌ l) e ∙ append-nil l, k))
label-IsDomain l tail rest h (inr (u, e, inl (f, k))) =
    inr (l, [], h, tt, inr (ap (◌++◌ l) (e ∙ ap (◌∷◌ b'.') f), k))
label-IsDomain l tail rest h (inr (u, e, inr (m, ms, hm, hms, inl (f, k)))) =
    inr (l, m ∷ ms, h, (hm, hms), inl (ap (◌++◌ l) (e ∙ ap (◌∷◌ b'.') f), k))
label-IsDomain l tail rest h (inr (u, e, inr (m, ms, hm, hms, inr (f, k)))) = inr (
  l,
  m ∷ ms,
  h,
  (hm, hms),
  inr (
    ap (◌++◌ l) (e ∙ ap (◌∷◌ b'.') f) ∙ sym (append_assoc l (b'.' ∷ dotted m ms) (b'.' ∷ [])),
    k,
  ),
)

Shape-cons :
    (required : Bool) (c : ℕ) (used rest : Bytes)
    → ldh c ≡ true
    → Continued used rest
    → Shape required (c ∷ used) rest
Shape-cons true c used rest h (run, tail, hs, e, f) =
    rw e (label-IsDomain (c ∷ run) tail rest (h, hs) f)
Shape-cons false c used rest h (run, tail, hs, e, f) = (c ∷ run, tail, (h, hs), ap (◌∷◌ c) e, f)

-- The loops have passed over these bytes.
abbrev Passed : Bool → ℕ → Bytes → ℕ → Type 0
Passed required n src m =
    (used : Bytes) × (rest : Bytes) × (src ≡ used ++ rest)
    × (m ≡ n + length used)
    × Shape required used rest

domain_size-stop :
    (n c : ℕ) (cs : Bytes)
    → ldh c ≡ false
    → (c == b'.') ≡ false
    → domain_size false n (c ∷ cs) ≡ some n
unfolding domain_size
domain_size-stop n c cs h d = ground (arith, not-ldh c)

empty_input : (required : Bool) (n m : ℕ) → domain_size required n [] ≡ some m → n ≡ m
unfolding domain_size
empty_input required n m e = cc

domain_size-required : (n c : ℕ) (cs : Bytes) → ldh c ≡ false → domain_size true n (c ∷ cs) ≡ none
unfolding domain_size
domain_size-required n c cs h = rw (not-ldh c, h) refl

domain_size-dotted_next :
    (n c : ℕ) (cs : Bytes)
    → ldh c ≡ false
    → (c == b'.') ≡ true
    → domain_size false n (c ∷ cs) ≡ domain_size true (n + 1) cs
unfolding domain_size
domain_size-dotted_next n c cs h d = ground (arith, not-ldh c)

some-eq : {a b : ℕ} → some a ≡ some b → a ≡ b
some-eq e = cc

none-some : {a : ℕ} → none ≡ some a → ⊥
none-some e = cc

Passed-cons :
    (required next : Bool) (n c : ℕ) (cs : Bytes) (m : ℕ)
    → ((used rest : Bytes) → Shape next used rest → Shape required (c ∷ used) rest)
    → Passed next (n + 1) cs m
    → Passed required n (c ∷ cs) m
Passed-cons required next n c cs m h (used, rest, e, f, k) =
    (c ∷ used, rest, ap (◌∷◌ c) e, omega arith, h used rest k)

Passed-stop :
    (n c : ℕ) (cs : Bytes) (m : ℕ)
    → ldh c ≡ false
    → (c == b'.') ≡ false
    → n ≡ m
    → Passed false n (c ∷ cs) m
Passed-stop n c cs m h d e = ([], c ∷ cs, refl, omega arith, ([], [], tt, refl, inl (refl, (h, d))))

Shape-dot :
    (c : ℕ) (used rest : Bytes)
    → (c == b'.') ≡ true
    → IsDomain used rest
    → Shape false (c ∷ used) rest
Shape-dot c used rest d h =
    ([], c ∷ used, tt, refl, inr (used, ap (λ x. x ∷ used) ((==_iff c b'.').0 d), h))

domain_size-Passed :
    (required : Bool) (n : ℕ) (src : Bytes) (m : ℕ)
    → domain_size required n src ≡ some m
    → Passed required n src m
domain_size-Passed true n [] m e =
    ([], [], refl, omega (arith, empty_input true n m e), inl (refl, refl))
domain_size-Passed false n [] m e =
    ([], [], refl, omega (arith, empty_input false n m e), ([], [], tt, refl, inl (refl, tt)))
domain_size-Passed true n (c ∷ cs) m e = elim (Bool-cases (ldh c)) [
  | inl h ↦
      Passed-cons true false n c cs m (λ used rest k. Shape-cons true c used rest h k)
        (domain_size-Passed false (n + 1) cs m (sym (domain_size-ldh true n c cs h) ∙ e))
  | inr h ↦ absurd (none-some (sym (domain_size-required n c cs h) ∙ e))
]
domain_size-Passed false n (c ∷ cs) m e = elim (Bool-cases (ldh c)) [
  | inl h ↦
      Passed-cons false false n c cs m (λ used rest k. Shape-cons false c used rest h k)
        (domain_size-Passed false (n + 1) cs m (sym (domain_size-ldh false n c cs h) ∙ e))
  | inr h ↦ elim (Bool-cases (c == b'.')) [
    | inl d ↦
        Passed-cons false true n c cs m (λ used rest k. Shape-dot c used rest d k)
          (domain_size-Passed true (n + 1) cs m (sym (domain_size-dotted_next n c cs h d) ∙ e))
    | inr d ↦ Passed-stop n c cs m h d (some-eq (sym (domain_size-stop n c cs h d) ∙ e))
  ]
]

-- The result of the parser: what it has taken, and what is behind.
abbrev pub Accepts : Bytes → Outcome Buffered → Type 0
Accepts src (ok b) =
    (src ≡ b.body ++ b.rest) × (b.buffer ≡ b.body) × (length b.body < 256) × IsDomain b.body b.rest
Accepts src malformed = Unit
Accepts src _ = ⊥

buffered-Accepts :
    (used rest : Bytes) (n : ℕ)
    → n ≡ length used
    → IsDomain used rest
    → Accepts (used ++ rest) (buffered 256 (used ++ rest) (drop n (used ++ rest)) n)
unfolding buffered
buffered-Accepts used rest n e h =
    if_keeps (Accepts (used ++ rest)) (leb 256 n) _ _ (λ l. tt)
      (λ l.
        rw (take-append used rest n e, drop-append used rest n e)
          (refl, refl, omega (arith, leb_false→lt 256 n l), h))

domain_of_size-Accepts :
    (src : Bytes) (o : Option ℕ)
    → ((m : ℕ) → o ≡ some m → Passed true 0 src m)
    → Accepts src (domain_of_size src o)
unfolding domain_of_size
domain_of_size-Accepts src none h = tt
domain_of_size-Accepts src (some m) h =
    let (used, rest, e, f, k) = h m refl in rw e (buffered-Accepts used rest m (omega arith) k)

-- On any input, `domain` ends with a result or with malformed; a result is the front of the input, of
-- fewer than 256 bytes, in which labels of letters, digits and hyphens are joined by dots, up to a
-- byte that can go on no domain; or, where the input ends there, an empty domain or one with a
-- trailing dot.
pub domain-Accepts : (src : Bytes) → Accepts src (domain src)
unfolding domain
domain-Accepts src =
    domain_of_size-Accepts src (domain_size true 0 src) (λ m e. domain_size-Passed true 0 src m e)
