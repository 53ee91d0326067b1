-- ===== src/Parse/Grammar/Words.antt =====
-- Words joined by dots, as `atom` and `local_part` of common/src/parse.cpp read them.
use ervan.Base.{
  ℕ, zero, suc, subst, ◌≡◌, refl, sym, ap, ◌∙◌, inl, inr, true, false, ◌==◌, ==_iff, Bool-cases,
  All, Bytes, List, [], ◌∷◌, ◌++◌, append_assoc, arith,
}
use ervan.Parse.Chars.{contains, is_alnum, is_atext}
use ervan.Parse.Results.{Outcome, ok, malformed, >>=-eq-ok, Slice, slice, between}
use ervan.Parse.Spans.{between-append}
use ervan.Parse.{skip_while, run_of, atom, after_atom, dot_string}
use ervan.Parse.Labels.{dotted}
use ervan.Parse.Grammar.{atext, IsWord}

atext-is : (c : ℕ) → is_atext c ≡ true → atext c ≡ true
unfolding is_atext is_alnum contains
atext-is c h = ground arith

skip_while-more :
    (c : ℕ) (cs : Bytes) → is_atext c ≡ true → skip_while is_atext (c ∷ cs) ≡ skip_while is_atext cs
unfolding skip_while
skip_while-more c cs e = rw e refl

skip_while-stop : (c : ℕ) (cs : Bytes) → is_atext c ≡ false → skip_while is_atext (c ∷ cs) ≡ c ∷ cs
unfolding skip_while
skip_while-stop c cs e = rw e refl

skip_while-nil : skip_while is_atext [] ≡ []
unfolding skip_while
skip_while-nil = refl

skip_while-Passed :
    (s : Bytes) → (u : Bytes) × (s ≡ u ++ skip_while is_atext s) × All (λ d. atext d ≡ true) u
skip_while-Passed [] = ([], sym skip_while-nil, tt)
skip_while-Passed (c ∷ cs) = elim (Bool-cases (is_atext c)) [
  | inl e ↦
      let (u, k, h) = skip_while-Passed cs in
      (c ∷ u, ap (◌∷◌ c) (k ∙ ap (◌++◌ u) (sym (skip_while-more c cs e))), (atext-is c e, h))
  | inr e ↦ ([], sym (skip_while-stop c cs e), tt)
]

atom-begins :
    (c : ℕ) (cs : Bytes)
    → is_atext c ≡ true
    → atom (c ∷ cs) ≡ ok (slice (c ∷ cs) (skip_while is_atext cs))
unfolding atom run_of
atom-begins c cs e = rw e refl

atom-stops : (c : ℕ) (cs : Bytes) → is_atext c ≡ false → atom (c ∷ cs) ≡ malformed
unfolding atom run_of
atom-stops c cs e = rw e refl

atom-nil : atom [] ≡ malformed
unfolding atom run_of
atom-nil = refl

abbrev Words : Bytes → Slice → Type 0
Words src a = IsWord a.body × (src ≡ a.body ++ a.rest)

atom-Words : (src : Bytes) (a : Slice) → atom src ≡ ok a → Words src a
atom-Words [] a h = cc (atom-nil)
atom-Words (c ∷ cs) a h = elim (Bool-cases (is_atext c)) [
  | inl e ↦
      let (u, k, passed) = skip_while-Passed cs in
      let body : between (c ∷ cs) (skip_while is_atext cs) ≡ c ∷ u =
        ap (λ x. between (c ∷ x) (skip_while is_atext cs)) k
        ∙ between-append (c ∷ u) (skip_while is_atext cs) in
      let same : slice (c ∷ cs) (skip_while is_atext cs) ≡ a = cc (atom-begins c cs e, h) in
      subst (Words (c ∷ cs)) same (
        subst IsWord (sym body) (atext-is c e, passed),
        ap (◌∷◌ c) k ∙ ap (λ b. b ++ skip_while is_atext cs) (sym body),
      )
  | inr e ↦ cc (atom-stops c cs e, h)
]

-- Words joined by dots, and a rest.
abbrev Dotted : Bytes → Bytes → Type 0
Dotted src rest =
    (w : Bytes) × (ws : List Bytes) × IsWord w × All IsWord ws × (src ≡ dotted w ws ++ rest)

after_atom-Dotted :
    (next : Bytes → Outcome Bytes) (a : Slice) (src rest : Bytes)
    → Words src a
    → ((cs : Bytes) → next cs ≡ ok rest → Dotted cs rest)
    → (left : Bytes) → a.rest ≡ left
    → after_atom next left ≡ ok rest
    → Dotted src rest
unfolding after_atom
after_atom-Dotted next a src rest (word, e) more [] l h =
    let same : [] ≡ rest = cc in (a.body, [], word, tt, e ∙ ap (◌++◌ a.body) (l ∙ same))
after_atom-Dotted next a src rest (word, e) more (c ∷ cs) l h = elim (Bool-cases (c == b'.')) [
  | inl d ↦
      let (w, ws, i, is, k) = more cs (rw d at h) in
      let dot : c ≡ b'.' = (==_iff c b'.').0 d in
      (
        a.body,
        w ∷ ws,
        word,
        (i, is),
        e
            ∙ ap (◌++◌ a.body) (l ∙ ap (λ x. x ∷ cs) dot ∙ ap (◌∷◌ b'.') k)
            ∙ sym (append_assoc a.body (b'.' ∷ dotted w ws) rest),
      )
  | inr d ↦
      let same : ◌≡◌ {A = Outcome Bytes} (ok (c ∷ cs)) (ok rest) = rw d at h in
      let same' : (c ∷ cs) ≡ rest = cc in (a.body, [], word, tt, e ∙ ap (◌++◌ a.body) (l ∙ same'))
]

pub dot_string-Dotted :
    (fuel : ℕ) (src rest : Bytes) → dot_string fuel src ≡ ok rest → Dotted src rest
unfolding dot_string
dot_string-Dotted zero src rest h = cc
dot_string-Dotted (suc fuel) src rest h =
    let (a, e, h') = >>=-eq-ok (atom src) (λ a. after_atom (dot_string fuel) a.rest) h in
    after_atom-Dotted (dot_string fuel) a src rest (atom-Words src a e)
      (λ cs. dot_string-Dotted fuel cs rest) a.rest refl h'
