-- ===== src/Config/Values/Carries.antt =====
-- A value that `dump` writes is the one that `set` reads.
use ervan.Base.{
  ℕ, zero, suc, ◌+◌, ◌-◌, ◌^◌, ◌≤◌, ◌<◌, ◌≡◌, refl, ap, ◌∙◌, ltb_false→le, ◌||◌, Bool, true, false,
  Bool-cases, inl, inr, ltb, le→ltb_false, ◌==◌, if◌then◌else◌, Bytes, length, length-append, drop,
  replicate, [], ◌∷◌, ◌++◌, Option, none, some, arith,
}
use ervan.Common.Platform.{c_string}
use ervan.Config.{Config}
use ervan.Config.File.Bounds.{AtMost, IsInRange}
use ervan.Config.Layout.{Layout, IsLawful}
use ervan.Config.Values.{
  or_default, get_port, get_submissionport, get_maxmessagesize, get_maxrcpt, LocalConfig, find_id,
  dumped, undefined, dump_number, dump_text, dump_hostname, dump_key, dump_found, dump, set_write,
  set_key, set_id_found, set_by_id, assigned, has_nul, read_text, with_text,
}

c_string-zeros : (n : ℕ) → c_string (replicate n 0) ≡ []
unfolding c_string
c_string-zeros zero = refl
c_string-zeros (suc n) = refl

c_string-padded : (s : Bytes) (n : ℕ) → c_string (c_string s ++ replicate n 0) ≡ c_string s
unfolding c_string
c_string-padded [] n = c_string-zeros n
c_string-padded (c ∷ s) n = elim (Bool-cases (c == 0)) [
  | inl e ↦ rw e (c_string-zeros n)
  | inr e ↦ rw e (rw e (ap (◌∷◌ c) (c_string-padded s n)))
]

AtMost-or_default : (max def : ℕ) (o : Option ℕ) → AtMost max o → def ≤ max → or_default o def ≤ max
AtMost-or_default max def none h k = k
AtMost-or_default max def (some n) h k = h

-- What the hostname arrives as: the text up to its first NUL, or, where it does not fit, whatever
-- text the buffer held before, if there is one.
abbrev pub arrived : Bytes → Bytes → Option Bytes
arrived buffer text =
    if ltb (length buffer) (length text + 1) then read_text buffer else some (c_string text)

pub arrived-fits :
    (buffer text : Bytes) → length text < length buffer → arrived buffer text ≡ some (c_string text)
arrived-fits buffer text h = rw (le→ltb_false (length buffer) (length text + 1) (omega arith)) refl

length-c_string : (s : Bytes) → length (c_string s) ≤ length s
unfolding c_string
length-c_string [] = omega arith
length-c_string (c ∷ s) = ground (arith, length-c_string s)

or_true : (b : Bool) → (b || true) ≡ true
or_true b = ground arith

has_nul-padded : (s : Bytes) (n : ℕ) → 0 < n → has_nul (s ++ replicate n 0) ≡ true
unfolding has_nul
has_nul-padded [] zero h = absurd (omega arith)
has_nul-padded [] (suc n) h = refl
has_nul-padded (c ∷ s) n h = rw (has_nul-padded s n h) (or_true (c == 0))

read_text-padded :
    (s : Bytes) (n : ℕ) → 0 < n → read_text (c_string s ++ replicate n 0) ≡ some (c_string s)
unfolding read_text
read_text-padded s n h = rw (has_nul-padded (c_string s) n h) (ap some (c_string-padded s n))

module _ (m : Layout) where
  -- What `dump` leaves in `buffer` for the id makes `set` change the other configuration by `change`.
  abbrev pub Carries : Config → Bytes → ℕ → (LocalConfig → LocalConfig) → Type 0
  Carries main buffer id change =
      (done : Bool) × (text : Bytes) × (dump m main id buffer ≡ dumped done text)
      × ((c : LocalConfig) → set_by_id m id text c ≡ assigned (change c))

  -- The hostname's update, whatever it holds.
  pub hostname-written :
      (main : Config) (text : Bytes)
      → main.hostname ≡ some text
      → (buffer : Bytes)
      → (done : Bool) × (written : Bytes) × (dump m main 0 buffer ≡ dumped done written)
        × ((c : LocalConfig) → set_by_id m 0 written c ≡ with_text (arrived buffer text) c)
  unfolding find_id dump_text dump_hostname dump_key dump_found dump set_key set_id_found set_by_id
  hostname-written main text e buffer = elim (Bool-cases (ltb (length buffer) (length text + 1))) [
    | inl b ↦ (false, buffer, rw e (rw b refl), λ c. rw b refl)
    | inr b ↦ (
      true,
      c_string text ++ replicate (length buffer - length (c_string text)) 0,
      rw e (rw b refl),
      λ c. rw b (
          ap (λ o. with_text o c)
            (read_text-padded text _ (
              omega
                (arith, length-c_string text, ltb_false→le (length buffer) (length text + 1) b)))),
    )
  ]

  pub hostname-Carries :
      (main : Config) (text : Bytes)
      → main.hostname ≡ some text
      → (buffer name : Bytes) → arrived buffer text ≡ some name
      → Carries main buffer 0 (λ c. record c { hostname = some name })
  hostname-Carries main text e buffer name a =
      let (done, written, d, k) = hostname-written main text e buffer in
      (done, written, d, λ c. k c ∙ ap (λ o. with_text o c) a)

  pub dump-undefined :
      (main : Config) (buffer : Bytes) → main.hostname ≡ none → dump m main 0 buffer ≡ undefined
  unfolding find_id dump_hostname dump_key dump_found dump
  dump-undefined main buffer e = rw e refl

  module _ (lawful : IsLawful m) where
    fits : (size v : ℕ) (buffer : Bytes) → size ≤ length (m.store size v ++ drop size buffer)
    fits size v buffer =
        omega (arith, length-append (m.store size v) (drop size buffer), lawful.length-store size v)

    -- What `dump_write` leaves of a number is what `set_write` reads.
    number-carried :
        (size v : ℕ) (buffer : Bytes)
        → size ≤ length buffer
        → v < 256 ^ size
        → (text : Bytes) × (dump_number m size v buffer ≡ dumped true text)
          × ((store : ℕ → LocalConfig) → set_write m size store text ≡ assigned (store v))
    unfolding dump_number set_write
    number-carried size v buffer h k = (
      m.store size v ++ drop size buffer,
      rw (le→ltb_false (length buffer) size h) refl,
      λ store.
          rw (le→ltb_false (length (m.store size v ++ drop size buffer)) size (fits size v buffer))
            (ap (λ n. assigned (store n)) (lawful.load-store size v (drop size buffer) k)),
    )

    module _ (main : Config) (range : IsInRange main) (buffer : Bytes)
        (large : length buffer ≡ 256) where
      pub port-Carries : Carries main buffer 1 (λ c. record c { port = some (get_port main) })
      unfolding find_id dump_key dump_found dump set_key set_id_found set_by_id
      port-Carries =
          let (text, e, k) =
            number-carried 2 (get_port main) buffer (omega arith) (
              omega
                (arith, AtMost-or_default (2 ^ 16 - 1) 25 main.port range.port (omega arith))) in
          (true, text, e, λ c. k _)

      pub submissionport-Carries :
          Carries main buffer 2 (λ c. record c { submissionport = some (get_submissionport main) })
      unfolding find_id dump_key dump_found dump set_key set_id_found set_by_id
      submissionport-Carries =
          let (text, e, k) = number-carried 2 (get_submissionport main) buffer (omega arith) (
            omega (
              arith,
              AtMost-or_default (2 ^ 16 - 1) 587 main.submissionport range.submissionport
                  (omega arith),
            )) in
          (true, text, e, λ c. k _)

      pub maxmessagesize-Carries :
          Carries main buffer 4 (λ c. record c { maxmessagesize = some (get_maxmessagesize main) })
      unfolding find_id dump_key dump_found dump set_key set_id_found set_by_id
      maxmessagesize-Carries =
          let (text, e, k) = number-carried 8 (get_maxmessagesize main) buffer (omega arith) (
            omega (
              arith,
              AtMost-or_default (2 ^ 64 - 1) 33554432 main.maxmessagesize range.maxmessagesize
                  (omega arith),
            )) in
          (true, text, e, λ c. k _)

      pub maxrcpt-Carries :
          Carries main buffer 5 (λ c. record c { maxrcpt = some (get_maxrcpt main) })
      unfolding find_id dump_key dump_found dump set_key set_id_found set_by_id
      maxrcpt-Carries =
          let (text, e, k) = number-carried 8 (get_maxrcpt main) buffer (omega arith) (
            omega (
              arith,
              AtMost-or_default (2 ^ 64 - 1) 256 main.maxrcpt range.maxrcpt (omega arith),
            )) in
          (true, text, e, λ c. k _)
