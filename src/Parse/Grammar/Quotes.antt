-- ===== src/Parse/Grammar/Quotes.antt =====
-- Quoted strings, as `quoted_string` of common/src/parse.cpp reads them.
use ervan.Base.{
  ℕ, zero, suc, ◌<◌, length, ◌≡◌, refl, ap, ◌∙◌, ◌⊎◌, inl, inr, Bool, true, false, ◌==◌, ==_iff,
  Bool-cases, All, Bytes, List, [], ◌∷◌, ◌++◌, arith,
}
use ervan.Parse.Chars.{is_qtext_smtp}
use ervan.Parse.Results.{Outcome, ok, malformed, overrun}
use ervan.Parse.{quoted_chars, not_printable}
use ervan.Parse.Grammar.{Item, plain, paired, IsItem, printed}

-- A quoted string from behind its opening quote, and a rest.
abbrev Closed : Bytes → Bytes → Type 0
Closed src rest = (items : List Item) × All IsItem items × (src ≡ printed items ++ (b'"' ∷ rest))

is_qtext-plain : (c : ℕ) → is_qtext_smtp c ≡ true → IsItem (plain c)
unfolding is_qtext_smtp
is_qtext-plain c h = h

printable : (c : ℕ) → not_printable c ≡ false → IsItem (paired c)
printable c h = ground arith

module _ (after : ℕ) where
  quoted-escaped :
      (c : ℕ) (cs rest : Bytes)
      → quoted_chars after true (c ∷ cs) ≡ ok rest
      → IsItem (paired c) × (quoted_chars after false cs ≡ ok rest)
  unfolding quoted_chars
  quoted-escaped c cs rest h = elim (Bool-cases (not_printable c)) [
    | inl e ↦ cc (rw e at h)
    | inr e ↦ (printable c e, rw e at h)
  ]

  quoted-escaped_nil :
      (rest : Bytes) (b : Bool) → not_printable after ≡ b → quoted_chars after true [] ≡ ok rest → ⊥
  unfolding quoted_chars
  quoted-escaped_nil rest true e h =
      let k : ◌≡◌ {A = Outcome Bytes} malformed (ok rest) = rw e at h in absurd (cc)
  quoted-escaped_nil rest false e h =
      let k : ◌≡◌ {A = Outcome Bytes} overrun (ok rest) = rw e at h in absurd (cc)

  -- What one byte that is not behind a backslash does.
  abbrev Read : ℕ → Bytes → Bytes → Type 0
  Read c cs rest =
      ((c ≡ b'"') × (cs ≡ rest))
      ⊎ (((c ≡ b'\\') × (quoted_chars after true cs ≡ ok rest))
          ⊎ (IsItem (plain c) × (quoted_chars after false cs ≡ ok rest)))

  quoted-Read :
      (c : ℕ) (cs rest : Bytes) → quoted_chars after false (c ∷ cs) ≡ ok rest → Read c cs rest
  unfolding quoted_chars
  quoted-Read c cs rest h = elim (Bool-cases (c == b'"')) [
    | inl q ↦
        let k : ◌≡◌ {A = Outcome Bytes} (ok cs) (ok rest) = rw q at h in
        inl ((==_iff c b'"').0 q, cc)
    | inr q ↦ elim (Bool-cases (c == b'\\')) [
      | inl b ↦ inr (inl ((==_iff c b'\\').0 b, rw (q, b) at h))
      | inr b ↦ elim (Bool-cases (is_qtext_smtp c)) [
        | inl t ↦ inr (inr (is_qtext-plain c t, rw (q, b, t) at h))
        | inr t ↦
            let k : ◌≡◌ {A = Outcome Bytes} malformed (ok rest) = rw (q, b, t) at h in absurd (cc)
      ]
    ]
  ]

  quoted-nil : (rest : Bytes) → quoted_chars after false [] ≡ ok rest → ⊥
  unfolding quoted_chars
  quoted-nil rest h = absurd (cc)

  pub quoted_chars-Closed :
      (fuel : ℕ) (src rest : Bytes)
      → length src < fuel
      → quoted_chars after false src ≡ ok rest
      → Closed src rest
  quoted_chars-Closed zero src rest l h = absurd (omega arith)
  quoted_chars-Closed (suc fuel) [] rest l h = absurd (quoted-nil rest h)
  quoted_chars-Closed (suc fuel) (c ∷ []) rest l h = elim (quoted-Read c [] rest h) [
    | inl (q, e) ↦ ([], tt, ap (λ x. x ∷ []) q ∙ ap (◌∷◌ b'"') e)
    | inr (inl (b, k)) ↦ absurd (quoted-escaped_nil rest (not_printable after) refl k)
    | inr (inr (i, k)) ↦ absurd (quoted-nil rest k)
  ]
  quoted_chars-Closed (suc fuel) (c ∷ d ∷ cs) rest l h = elim (quoted-Read c (d ∷ cs) rest h) [
    | inl (q, e) ↦ ([], tt, ap (λ x. x ∷ d ∷ cs) q ∙ ap (◌∷◌ b'"') e)
    | inr (inl (b, k)) ↦
        let (i, k') = quoted-escaped d cs rest k in
        let (items, is, e) = quoted_chars-Closed fuel cs rest (omega arith) k' in
        (paired d ∷ items, (i, is), ap (λ x. x ∷ d ∷ cs) b ∙ ap (λ x. b'\\' ∷ d ∷ x) e)
    | inr (inr (i, k)) ↦
        let (items, is, e) = quoted_chars-Closed fuel (d ∷ cs) rest (omega arith) k in
        (plain c ∷ items, (i, is), ap (◌∷◌ c) e)
  ]
