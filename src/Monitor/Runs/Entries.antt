-- ===== src/Monitor/Runs/Entries.antt =====
-- What a signal does to the entries.
use ervan.Base.{
  ℕ, ◌≡◌, ◌≢◌, refl, sym, ap, subst, ◌∙◌, inl, inr, Bool, true, false, Bool-cases, ◌==◌, ==_iff,
  arith, Bytes, map, All, List, [], ◌∷◌,
}
use ervan.Monitor.{
  System, Entry, Monitor, enter, put_first, signal_entry, signal_entries, signal, loop,
}
use ervan.Monitor.Runs.{Kernel}

-- The entries behind a signal: each has its name, and keeps its pid unless it was the signal's.
abbrev pub Restarted : ℕ → List Entry → List Entry → Type 0
Restarted child [] [] = Unit
Restarted child [] (f ∷ fs) = ⊥
Restarted child (e ∷ es) [] = ⊥
Restarted child (e ∷ es) (f ∷ fs) =
    (f.name ≡ e.name) × (e.pid ≢ child → f.pid ≡ e.pid) × Restarted child es fs

-- No two entries have the same pid.
abbrev pub Distinct : List Entry → Type 0
Distinct [] = Unit
Distinct (e ∷ es) = All (λ f. f.pid ≢ e.pid) es × Distinct es

module _ (sys : System) where
  signal_entries-Restarted :
      (in_debug : Bool) (child : ℕ) (es : List Entry) (s : sys.Processes)
      → Restarted child es (signal_entries sys in_debug child es s).0
  unfolding signal_entry signal_entries put_first
  signal_entries-Restarted in_debug child [] s = tt
  signal_entries-Restarted in_debug child (e ∷ es) s = elim (Bool-cases (e.pid == child)) [
    | inl t ↦ rw t (
      refl,
      λ h. absurd (h ((==_iff e.pid child).0 t)),
      signal_entries-Restarted in_debug child es _,
    )
    | inr t ↦ rw t (refl, λ h. refl, signal_entries-Restarted in_debug child es s)
  ]

  signal_entries-absent :
      (in_debug : Bool) (child : ℕ) (es : List Entry) (s : sys.Processes)
      → All (λ e. e.pid ≢ child) es
      → signal_entries sys in_debug child es s ≡ (es, s)
  unfolding signal_entry signal_entries put_first
  signal_entries-absent in_debug child [] s h = refl
  signal_entries-absent in_debug child (e ∷ es) s (n, h) = elim (Bool-cases (e.pid == child)) [
    | inl t ↦ absurd (n ((==_iff e.pid child).0 t))
    | inr t ↦ rw t (ap (put_first sys e) (signal_entries-absent in_debug child es s h))
  ]

-- Each entry's process has not been waited for, and is no other entry's.
abbrev pub IsOwned : {sys : System} (k : Kernel sys) → List Entry → sys.Processes → Type 0
IsOwned k es s = All (λ e. k.Child s e.pid) es × Distinct es

All-map {ℓ κ} :
    {A : Type ℓ} (P Q : A → Type κ) (xs : List A) → ((x : A) → P x → Q x) → All P xs → All Q xs
All-map P Q [] h a = tt
All-map P Q (x ∷ xs) h (p, a) = (h x p, All-map P Q xs h a)

All-zip {ℓ κ} :
    {A : Type ℓ} (P Q R : A → Type κ) (xs : List A)
    → ((x : A) → P x → Q x → R x)
    → All P xs
    → All Q xs
    → All R xs
All-zip P Q R [] h a b = tt
All-zip P Q R (x ∷ xs) h (p, a) (q, b) = (h x p q, All-zip P Q R xs h a b)

module _ {sys : System} (k : Kernel sys) (child : ℕ) where
  -- A child that the signal does not name is kept, and no entry gets its pid.
  signal_entries-Apart :
      (q : ℕ) (es : List Entry) (s : sys.Processes)
      → q ≢ child
      → k.Child s q
      → All (λ e. e.pid ≢ q) es
      → k.Child (signal_entries sys false child es s).1 q
        × All (λ e. e.pid ≢ q) (signal_entries sys false child es s).0
  unfolding enter signal_entry signal_entries put_first
  signal_entries-Apart q [] s n c h = (c, tt)
  signal_entries-Apart q (e ∷ es) s n c (h, hs) = elim (Bool-cases (e.pid == child)) [
    | inl t ↦ rw t (
        let c' = k.waitpid_keeps s child q n c in
        let (d, ds) =
          signal_entries-Apart q es (sys.fork (sys.waitpid child s)).1 n (k.fork_keeps _ q c') hs in
        (d, (k.fork_fresh _ q c', ds)))
    | inr t ↦ rw t (let (d, ds) = signal_entries-Apart q es s n c hs in (d, (h, ds)))
  ]

  -- The one entry that the signal names gets a new process.
  signal_entries-named :
      (e : Entry) (es : List Entry) (s : sys.Processes)
      → (e.pid == child) ≡ true
      → All (λ f. f.pid ≢ child) es
      → signal_entries sys false child (e ∷ es) s ≡ (
        record e { pid = (sys.fork (sys.waitpid child s)).0 } ∷ es,
        (sys.fork (sys.waitpid child s)).1,
      )
  unfolding enter signal_entry signal_entries put_first
  signal_entries-named e es s t absent = rw t (
      ap (put_first sys (record e { pid = (sys.fork (sys.waitpid child s)).0 }))
        (signal_entries-absent sys false child es (sys.fork (sys.waitpid child s)).1 absent))

  signal_entries-IsOwned :
      (es : List Entry) (s : sys.Processes)
      → IsOwned k es s
      → IsOwned k (signal_entries sys false child es s).0 (signal_entries sys false child es s).1
  unfolding signal_entry signal_entries put_first
  signal_entries-IsOwned [] s h = (tt, tt)
  signal_entries-IsOwned (e ∷ es) s ((c, cs), (d, ds)) = elim (Bool-cases (e.pid == child)) [
    | inl t ↦
        let absent = subst (λ p. All (λ f. f.pid ≢ p) es) ((==_iff e.pid child).0 t) d in
        let waited = sys.waitpid child s in
        let kept =
          All-zip (λ f. f.pid ≢ child) (λ f. k.Child s f.pid) (λ f. k.Child waited f.pid) es
            (λ f. k.waitpid_keeps s child f.pid) absent cs in
        subst (λ r. IsOwned k r.0 r.1) (sym (signal_entries-named e es s t absent))
          (
            (k.fork-Child waited, All-map _ _ es (λ f. k.fork_keeps waited f.pid) kept),
            (All-map _ _ es (λ f c' g. k.fork_fresh waited f.pid c' (sym g)) kept, ds),
          )
    | inr t ↦ rw t (
        let (c', d') = signal_entries-Apart e.pid es s (λ h. ground arith) c d in
        let (cs', ds') = signal_entries-IsOwned es s (cs, ds) in ((c', cs'), (d', ds')))
  ]

  -- A signal names a child. If `fork` succeeds, and each entry's process is a child that has not been
  -- waited for and no other entry's, then behind the signal that holds again; and the entries are the
  -- same, in order, each with the same pid if the signal did not name it.
  pub signal-IsOwned :
      (m : Monitor) (s : sys.Processes)
      → m.in_debug ≡ false
      → IsOwned k m.entries s
      → IsOwned k (signal sys child m s).0.entries (signal sys child m s).1
        × Restarted child m.entries (signal sys child m s).0.entries
  unfolding signal
  signal-IsOwned m s e h = (
    rw e (signal_entries-IsOwned m.entries s h),
    signal_entries-Restarted sys m.in_debug child m.entries s,
  )

abbrev pub names : List Entry → List Bytes
names es = map (λ e. e.name) es

Restarted-names : (child : ℕ) (es fs : List Entry) → Restarted child es fs → names fs ≡ names es
Restarted-names child [] [] r = refl
Restarted-names child [] (f ∷ fs) r = absurd r
Restarted-names child (e ∷ es) [] r = absurd r
Restarted-names child (e ∷ es) (f ∷ fs) (n, p, r) =
    ap (λ x. x ∷ names fs) n ∙ ap (◌∷◌ e.name) (Restarted-names child es fs r)

-- Whatever children the signals name, one after the other: if `fork` succeeds, and each entry's process
-- is a child that has not been waited for and no other entry's, that holds again behind the loop, and
-- the entries' names are the same, in order.
pub loop-IsOwned :
    {sys : System} (k : Kernel sys) (children : List ℕ) (m : Monitor) (s : sys.Processes)
    → m.in_debug ≡ false
    → IsOwned k m.entries s
    → IsOwned k (loop sys children m s).0.entries (loop sys children m s).1
      × (names (loop sys children m s).0.entries ≡ names m.entries)
unfolding loop signal
loop-IsOwned k [] m s e h = (h, refl)
loop-IsOwned {sys} k (child ∷ children) m s e h =
    let (h', r) = signal-IsOwned k child m s e h in
    let (h'', n) = loop-IsOwned k children (signal sys child m s).0 (signal sys child m s).1 e h' in
    (h'', n ∙ Restarted-names child m.entries (signal sys child m s).0.entries r)
