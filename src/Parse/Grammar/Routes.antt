-- ===== src/Parse/Grammar/Routes.antt =====
-- The routes and domains that `a_d_l` and `domain` of common/src/parse.cpp read.
use ervan.Base.{
  ℕ, zero, suc, ◌≡◌, refl, sym, ap, ◌∙◌, subst, ◌⊎◌, inl, inr, ◌==◌, ==_iff, Bool-cases, All, Bytes,
  length, List, [], ◌∷◌, ◌++◌, append_assoc,
}
use ervan.Parse.Results.{Outcome, ok, malformed, overrun, exhausted, >>=-eq-ok, Buffered}
use ervan.Parse.Spans.{expect-splits}
use ervan.Parse.{expect, domain, at_domain, a_d_l_tail, a_d_l_behind, a_d_l, or_empty}
use ervan.Parse.Labels.Sound.{IsDomain, Accepts, domain-Accepts}
use ervan.Parse.Grammar.{IsHost, route_end, IsRoute}

pub domain-IsDomain : (src : Bytes) (b : Buffered) → domain src ≡ ok b → IsDomain b.body b.rest
domain-IsDomain src b h =
    let (splits, copied, fits, is) = subst (Accepts src) h (domain-Accepts src) in is

-- A domain that ends before the input does.
pub IsDomain-IsHost :
    (body rest : Bytes) (c : ℕ) (cs : Bytes) → IsDomain body rest → rest ≡ c ∷ cs → IsHost body
IsDomain-IsHost body rest c cs (inl (e, f)) h = cc
IsDomain-IsHost body rest c cs (inr (l, ls, i, is, inl (e, k))) h = (l, ls, i, is, e)
IsDomain-IsHost body rest c cs (inr (l, ls, i, is, inr (e, f))) h = cc

domain-splits : (src : Bytes) (b : Buffered) → domain src ≡ ok b → src ≡ b.body ++ b.rest
domain-splits src b h = (subst (Accepts src) h (domain-Accepts src)).0

before_end :
    (body left rest : Bytes) (hs : List Bytes)
    → IsDomain body left
    → left ≡ route_end hs ++ rest
    → IsHost body
before_end body left rest [] d e = IsDomain-IsHost body left b':' rest d e
before_end body left rest (h ∷ hs) d e =
    IsDomain-IsHost body left b',' ((b'@' ∷ (h ++ route_end hs)) ++ rest) d e

-- A domain behind its `@`.
abbrev Located : Bytes → Buffered → Type 0
Located src d = (src ≡ b'@' ∷ (d.body ++ d.rest)) × IsDomain d.body d.rest

at_domain-Located : (src : Bytes) (d : Buffered) → at_domain src ≡ ok d → Located src d
unfolding at_domain
at_domain-Located src d h =
    let (behind, e, h') = >>=-eq-ok (expect b'@' src) domain h in
    (
      expect-splits b'@' src e ∙ ap (◌∷◌ b'@') (domain-splits behind d h'),
      domain-IsDomain behind d h',
    )

abbrev Goes : Bytes → Bytes → Type 0
Goes src rest = (hs : List Bytes) × All IsHost hs × (src ≡ route_end hs ++ rest)

a_d_l_tail-Goes : (fuel : ℕ) (src rest : Bytes) → a_d_l_tail fuel src ≡ ok rest → Goes src rest
unfolding a_d_l_tail
a_d_l_tail-Goes zero src rest h = cc
a_d_l_tail-Goes (suc fuel) [] rest h = cc
a_d_l_tail-Goes (suc fuel) (c ∷ cs) rest h = elim (Bool-cases (c == b',')) [
  | inl e ↦
      let (d, e', h') = >>=-eq-ok (at_domain cs) (λ d. a_d_l_tail fuel d.rest) (rw e at h) in
      let (at, located) = at_domain-Located cs d e' in
      let (hs, is, k) = a_d_l_tail-Goes fuel d.rest rest h' in
      (
        d.body ∷ hs,
        (before_end d.body d.rest rest hs located k, is),
        ap (λ x. x ∷ cs) ((==_iff c b',').0 e)
            ∙ ap (◌∷◌ b',') (
                at
                ∙ ap (λ r. b'@' ∷ (d.body ++ r)) k
                ∙ ap (◌∷◌ b'@') (sym (append_assoc d.body (route_end hs) rest))),
      )
  | inr e ↦ elim (Bool-cases (c == b':')) [
    | inl f ↦
        let k : ◌≡◌ {A = Outcome Bytes} (ok cs) (ok rest) = rw (e, f) at h in
        let same : cs ≡ rest = cc in
        ([], tt, ap (λ x. x ∷ cs) ((==_iff c b':').0 f) ∙ ap (◌∷◌ b':') same)
    | inr f ↦ let k : ◌≡◌ {A = Outcome Bytes} malformed (ok rest) = rw (e, f) at h in absurd (cc)
  ]
]

-- A route and what follows it; where the route is malformed, nothing is left.
abbrev pub Routed : Bytes → Bytes → Type 0
Routed src rest = ((route : Bytes) × IsRoute route × (src ≡ route ++ rest)) ⊎ (rest ≡ [])

Routed-none : (src rest : Bytes) → or_empty (a_d_l_behind src malformed) ≡ ok rest → Routed src rest
unfolding a_d_l_behind
Routed-none src rest h = let same : src ≡ rest = cc in inl ([], inl refl, same)

Routed-first :
    (src rest : Bytes) (d : Buffered)
    → Located src d
    → (o : Outcome Bytes) → a_d_l_behind src (ok d) ≡ o
    → or_empty o ≡ ok rest
    → Routed src rest
unfolding a_d_l_behind
Routed-first src rest d (at, located) (ok r) e h =
    let (hs, is, k) = a_d_l_tail-Goes (suc (length d.rest)) d.rest r e in
    let same : r ≡ rest = cc in
    inl (
      b'@' ∷ (d.body ++ route_end hs),
      inr (d.body, hs, before_end d.body d.rest r hs located k, is, refl),
      at
          ∙ ap (λ x. b'@' ∷ (d.body ++ x)) k
          ∙ ap (◌∷◌ b'@') (sym (append_assoc d.body (route_end hs) r))
          ∙ ap (λ x. (b'@' ∷ (d.body ++ route_end hs)) ++ x) same,
    )
Routed-first src rest d l malformed e h = let same : [] ≡ rest = cc in inr (sym same)
Routed-first src rest d l overrun e h = absurd (cc)
Routed-first src rest d l exhausted e h = absurd (cc)

routed_not : (src rest : Bytes) → or_empty (a_d_l_behind src overrun) ≡ ok rest → ⊥
unfolding a_d_l_behind
routed_not src rest h = cc

routed_never : (src rest : Bytes) → or_empty (a_d_l_behind src exhausted) ≡ ok rest → ⊥
unfolding a_d_l_behind
routed_never src rest h = cc

a_d_l_behind-Routed :
    (src rest : Bytes) (o : Outcome Buffered)
    → at_domain src ≡ o
    → or_empty (a_d_l_behind src o) ≡ ok rest
    → Routed src rest
a_d_l_behind-Routed src rest (ok d) e h =
    Routed-first src rest d (at_domain-Located src d e) (a_d_l_behind src (ok d)) refl h
a_d_l_behind-Routed src rest malformed e h = Routed-none src rest h
a_d_l_behind-Routed src rest overrun e h = absurd (routed_not src rest h)
a_d_l_behind-Routed src rest exhausted e h = absurd (routed_never src rest h)

pub a_d_l-Routed : (src rest : Bytes) → or_empty (a_d_l src) ≡ ok rest → Routed src rest
unfolding a_d_l
a_d_l-Routed src rest h = a_d_l_behind-Routed src rest (at_domain src) refl h
