-- ===== src/Monitor/Runs/Watched.antt =====
-- The SMTP process is watched: at every moment it runs, or a signal that names it is pending.
use ervan.Base.{
  ℕ, ◌≡◌, refl, ap, subst, ◌⊎◌, inl, inr, false, ==_iff, codes, Bytes, List, [], ◌∷◌, Option, none,
  some,
}
use ervan.Config.{Config}
use ervan.Config.Values.{get_debug}
use ervan.Monitor.{
  System, Entry, Monitor, enter, add, put_first, signal_entry, signal_entries, signal,
  start_monitor,
}
use ervan.Monitor.Runs.{Kernel, World, IsEntry, raised, Step, ends, delivers, Reach, here, next}

-- The world in which main_async begins to poll.
abbrev pub started : (sys : System) → Config → Monitor → sys.Processes → World sys
started sys main m s = record {
  monitor = (start_monitor sys main m s).0;
  processes = (start_monitor sys main m s).1;
  pending = none;
}

module _ {sys : System} (k : Kernel sys) where
  -- The process runs and no signal is pending, or the pending signal names it.
  abbrev Attended : sys.Processes → ℕ → Option ℕ → Type 0
  Attended s p none = k.Running s p
  Attended s p (some q) = q ≡ p

  -- There is one entry, the SMTP process, which runs if no signal is pending, and which is the one
  -- that a pending signal names.
  pub record IsWatched (w : World sys) : Type 0 where
    pub forks : w.monitor.in_debug ≡ false
    pub pid : ℕ
    pub only : w.monitor.entries ≡ (record { name = codes "ervan.smtp"; pid = pid } ∷ [])
    pub attended : Attended w.processes pid w.pending

  pub started-IsWatched :
      (main : Config) (m : Monitor) (s : sys.Processes)
      → get_debug main ≡ false
      → m.entries ≡ []
      → IsWatched (started sys main m s)
  unfolding enter add start_monitor
  started-IsWatched main m s e n = record {
    forks = e;
    pid = (sys.fork s).0;
    only = rw e (rw n refl);
    attended = rw e (k.fork-Running s);
  }

  raised-Attended :
      (s s' : sys.Processes) (p : ℕ) (pending : Option ℕ)
      → Attended s p pending
      → Attended s' p (raised pending p)
  raised-Attended s s' p none h = refl
  raised-Attended s s' p (some q) h = h

  -- A signal that names the one entry starts it again.
  signal-single :
      (m : Monitor) (name : Bytes) (p : ℕ) (s : sys.Processes)
      → m.in_debug ≡ false
      → m.entries ≡ (record { name = name; pid = p } ∷ [])
      → signal sys p m s ≡ (
        record m { entries = record { name = name; pid = (sys.fork (sys.waitpid p s)).0 } ∷ [] },
        (sys.fork (sys.waitpid p s)).1,
      )
  unfolding enter signal_entry signal_entries put_first signal
  signal-single m name p s e o = rw e (rw o (rw ((==_iff p p).1 refl) refl))

  of_only : (e x : Entry) (es : List Entry) → es ≡ (x ∷ []) → IsEntry e es → e.pid ≡ x.pid
  of_only e x es o i = elim (subst (IsEntry e) o i) [ inl h ↦ ap (λ y. y.pid) h | inr h ↦ absurd h ]

  delivered : (m : Monitor) (s : sys.Processes) (p : ℕ) → World sys
  delivered m s p = record {
    monitor = (signal sys p m s).0;
    processes = (signal sys p m s).1;
    pending = none;
  }

  delivered-IsWatched :
      (m : Monitor) (s : sys.Processes) (p : ℕ)
      → IsWatched (record { monitor = m; processes = s; pending = some p })
      → IsWatched (delivered m s p)
  unfolding delivered
  delivered-IsWatched m s p v =
      rw (signal-single m (codes "ervan.smtp") p s v.forks (rw v.attended v.only)) (record {
        forks = v.forks;
        pid = (sys.fork (sys.waitpid p s)).0;
        only = refl;
        attended = k.fork-Running (sys.waitpid p s);
      })

  Step-IsWatched : {w w' : World sys} → Step k w w' → IsWatched w → IsWatched w'
  unfolding delivered
  Step-IsWatched (ends m s s' pending e i keeps children) v = record {
    forks = v.forks;
    pid = v.pid;
    only = v.only;
    attended = rw (of_only e _ m.entries v.only i) (raised-Attended s s' v.pid pending v.attended);
  }
  Step-IsWatched (delivers m s p) v = delivered-IsWatched m s p v

  Reach-IsWatched : {w w' : World sys} → Reach k w w' → IsWatched w → IsWatched w'
  Reach-IsWatched here v = v
  Reach-IsWatched (next r step) v = Step-IsWatched step (Reach-IsWatched r v)

  -- If `fork` succeeds, and the monitor starts with no entries and not in debug mode: at every moment,
  -- whenever processes end and signals are read, the SMTP process is the one entry; it runs if no
  -- signal is pending, and a pending signal names it, though signals do not queue.
  pub started-Watched :
      (main : Config) (m : Monitor) (s : sys.Processes) (w : World sys)
      → get_debug main ≡ false
      → m.entries ≡ []
      → Reach k (started sys main m s) w
      → IsWatched w
  started-Watched main m s w e n r = Reach-IsWatched r (started-IsWatched main m s e n)

  -- At most one step leads to a world in which the one entry's process runs.
  abbrev pub Recovers : World sys → Type 0
  Recovers w =
      (w' : World sys) × (e : Entry) × ((w ≡ w') ⊎ Step k w w')
      × (w'.monitor.entries ≡ (e ∷ []))
      × (e.name ≡ codes "ervan.smtp")
      × k.Running w'.processes e.pid

  watched_entry : ℕ → Entry
  watched_entry pid = record { name = codes "ervan.smtp"; pid = pid }

  IsWatched-Recovers :
      (m : Monitor) (s : sys.Processes) (pending : Option ℕ)
      → IsWatched (record { monitor = m; processes = s; pending = pending })
      → Recovers (record { monitor = m; processes = s; pending = pending })
  unfolding delivered watched_entry
  IsWatched-Recovers m s none v = (_, watched_entry v.pid, inl refl, v.only, refl, v.attended)
  IsWatched-Recovers m s (some p) v =
      let v' = delivered-IsWatched m s p v in
      (delivered m s p, watched_entry v'.pid, inr (delivers m s p), v'.only, refl, v'.attended)

  -- If `fork` succeeds, and the monitor starts with no entries and not in debug mode: whatever has
  -- happened, the SMTP process, the one entry, runs now or does once the pending signal is read.
  pub started-Recovers :
      (main : Config) (m : Monitor) (s : sys.Processes) (w : World sys)
      → get_debug main ≡ false
      → m.entries ≡ []
      → Reach k (started sys main m s) w
      → Recovers w
  started-Recovers main m s w e n r =
      IsWatched-Recovers w.monitor w.processes w.pending (started-Watched main m s w e n r)
