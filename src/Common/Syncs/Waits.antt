-- ===== src/Common/Syncs/Waits.antt =====
-- With one sync at a time, no wake-up is lost.
use ervan.Base.{
  if_keeps, ℕ, ◌≡◌, refl, sym, ap, ◌∙◌, true, not, ◌==◌, ==_iff, [], ◌∷◌, Option, none, some, arith,
}
use ervan.Common.Syncs.{
  Io, has, without, sync_file, io_signal, raise, complete, Alone, begin, sync, finish, wake,
}

-- At most one coroutine waits, and it is still to be woken.
pub data Awaits (io : Io) : Type 0 where
  nobody : io.waiting ≡ [] → io.in_flight ≡ [] → io.pending ≡ none → Awaits io
  working :
      (handle : ℕ)
      → io.waiting ≡ handle ∷ []
      → io.in_flight ≡ handle ∷ []
      → io.pending ≡ none
      → Awaits io
  called :
      (handle : ℕ)
      → io.waiting ≡ handle ∷ []
      → io.in_flight ≡ []
      → io.pending ≡ some handle
      → Awaits io

without-itself : (h : ℕ) → without h (h ∷ []) ≡ []
without-itself h = rw ((==_iff h h).1 refl) refl

has-one : (h k : ℕ) → has h (k ∷ []) ≡ true → h ≡ k
has-one h k e = ground arith

sync-Awaits :
    (io : Io) (result handle : ℕ)
    → io.waiting ≡ []
    → Awaits io
    → Awaits (sync_file result handle io).1
unfolding sync_file
sync-Awaits io result handle free (nobody w f p) =
    if_keeps (λ (r : Option ℕ × Io). Awaits r.1) (not (result == 0)) _ _ (λ _. nobody w f p)
      (λ _. working handle (ap (◌∷◌ handle) w) (ap (◌∷◌ handle) f) p)
sync-Awaits io result handle free (working k w f p) = absurd (cc)
sync-Awaits io result handle free (called k w f p) = absurd (cc)

finish-Awaits : (io : Io) (h : ℕ) → has h io.in_flight ≡ true → Awaits io → Awaits (complete h io)
finish-Awaits io h there (nobody w f p) =
    let none_left : has h [] ≡ true = sym (ap (has h) f) ∙ there in absurd (cc)
finish-Awaits io h there (working k w f p) =
    let same = has-one h k (sym (ap (has h) f) ∙ there) in
    called k w (ap (without h) f ∙ ap (λ x. without x (k ∷ [])) same ∙ without-itself k)
      (ap (λ q. raise q h) p ∙ ap some same)
finish-Awaits io h there (called k w f p) =
    let none_left : has h [] ≡ true = sym (ap (has h) f) ∙ there in absurd (cc)

wake-Awaits :
    (io : Io) (h : ℕ)
    → io.pending ≡ some h
    → Awaits io
    → Awaits (io_signal h (record io { pending = none }))
unfolding io_signal
wake-Awaits io h e (nobody w f p) = absurd (cc)
wake-Awaits io h e (working k w f p) = absurd (cc)
wake-Awaits io h e (called k w f p) =
    let same : h ≡ k = cc in
    nobody (ap (without h) w ∙ ap (λ x. without x (k ∷ [])) same ∙ without-itself k) f refl

-- Where a file is synced only while no other coroutine waits, at most one waits at any moment, and it
-- is still to be woken: its request is in flight, or the pending signal names it.
pub Alone-Awaits : {io : Io} → Alone io → Awaits io
Alone-Awaits begin = nobody refl refl refl
Alone-Awaits (sync {io} a result handle free) = sync-Awaits io result handle free (Alone-Awaits a)
Alone-Awaits (finish {io} a handle there) = finish-Awaits io handle there (Alone-Awaits a)
Alone-Awaits (wake {io} a handle e) = wake-Awaits io handle e (Alone-Awaits a)
