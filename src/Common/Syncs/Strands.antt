-- ===== src/Common/Syncs/Strands.antt =====
-- With two syncs at a time, a wake-up can be lost.
use ervan.Base.{
  if_keeps, ℕ, ◌≡◌, ◌≢◌, refl, sym, ap, ◌∙◌, Bool, true, false, not, ◌||◌, ◌==◌, ==_iff, Bool-cases,
  inl, inr, List, [], ◌∷◌, Option, none, some, arith,
}
use ervan.Common.Syncs.{
  Io, has, without, sync_file, io_signal, raise, complete, Step, starts, completes, delivers, Reach,
  here, next,
}

-- The coroutine waits, and nothing is left that would wake it.
pub record IsStranded (handle : ℕ) (io : Io) : Type 0 where
  pub waits : has handle io.waiting ≡ true
  pub finished : has handle io.in_flight ≡ false
  pub unheard : io.pending ≢ some handle

has-without : (h k : ℕ) (ks : List ℕ) → (h == k) ≡ false → has h (without k ks) ≡ has h ks
has-without h k [] e = refl
has-without h k (x ∷ ks) e = elim (Bool-cases (k == x)) [
  | inl f ↦ let other : (h == x) ≡ false = ground arith in rw (f, other) (has-without h k ks e)
  | inr f ↦ rw f (ap (λ r. (h == x) || r) (has-without h k ks e))
]

has-without_self : (h : ℕ) (ks : List ℕ) → has h (without h ks) ≡ false
has-without_self h [] = refl
has-without_self h (x ∷ ks) = elim (Bool-cases (h == x)) [
  | inl e ↦ rw e (has-without_self h ks)
  | inr e ↦ rw e (rw e (has-without_self h ks))
]

-- What is there is not what is missing.
apart : (h k : ℕ) (ks : List ℕ) → has h ks ≡ true → has k ks ≡ false → (h == k) ≡ false
apart h k ks e f = elim (Bool-cases (h == k)) [
  | inl same ↦ let q : h ≡ k = (==_iff h k).0 same in absurd (cc)
  | inr other ↦ other
]

swap : (h k : ℕ) → (h == k) ≡ false → (k == h) ≡ false
swap h k e = ground arith

differ : (h k : ℕ) → (h == k) ≡ false → h ≢ k
differ h k e q = ground arith

or_behind : (a b : Bool) → b ≡ true → (a || b) ≡ true
or_behind a b e = ground arith

raise-other : (o : Option ℕ) (h k : ℕ) → o ≢ some k → (h == k) ≡ false → raise o h ≢ some k
raise-other none h k n e q = let same : h ≡ k = cc in differ h k e same
raise-other (some pending) h k n e q = n q

Step-IsStranded : (k : ℕ) {s t : Io} → IsStranded k s → Step s t → IsStranded k t
unfolding sync_file io_signal
Step-IsStranded k {s} h (starts result handle fresh) =
    if_keeps (λ (r : Option ℕ × Io). IsStranded k r.1) (not (result == 0)) _ _ (λ _. h)
      (λ _. record {
        waits = or_behind (k == handle) (has k s.waiting) h.waits;
        finished = rw (apart k handle s.waiting h.waits fresh) h.finished;
        unheard = h.unheard;
      })
Step-IsStranded k {s} h (completes handle there) =
    let other = apart handle k s.in_flight there h.finished in
    record {
      waits = h.waits;
      finished = has-without k handle s.in_flight (swap handle k other) ∙ h.finished;
      unheard = raise-other s.pending handle k h.unheard other;
    }
Step-IsStranded k {s} h (delivers handle e) = elim (Bool-cases (k == handle)) [
  | inl same ↦ absurd (h.unheard (e ∙ ap some (sym ((==_iff k handle).0 same))))
  | inr other ↦ record {
    waits = has-without k handle s.waiting other ∙ h.waits;
    finished = h.finished;
    unheard = λ q. cc;
  }
]

Reach-IsStranded : (k : ℕ) {s t : Io} → IsStranded k s → Reach s t → IsStranded k t
Reach-IsStranded k h here = h
Reach-IsStranded k h (next r st) = Step-IsStranded k (Reach-IsStranded k h r) st

some_same : {a b : ℕ} → some a ≡ some b → a ≡ b
some_same e = cc

-- If a coroutine waits, no signal is pending, and the request of another one and then its own come to
-- their ends before a signal is delivered, then it waits for ever: whatever comes next, it is waiting,
-- and neither a request in flight nor the pending signal is there to wake it.
pub complete-IsStranded :
    (h k : ℕ) (io t : Io)
    → (k == h) ≡ false
    → has k io.waiting ≡ true
    → io.pending ≡ none
    → Reach (complete k (complete h io)) t
    → IsStranded k t
complete-IsStranded h k io t e w p r =
    Reach-IsStranded k
      (record {
        waits = w;
        finished = has-without_self k (without h io.in_flight);
        unheard = λ q. differ k h e (sym (some_same (sym (ap (λ o. raise (raise o h) k) p) ∙ q)));
      })
      r
