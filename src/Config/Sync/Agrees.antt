-- ===== src/Config/Sync/Agrees.antt =====
-- What the SMTP process knows of the configuration once the monitor has answered its request.
use ervan.Base.{
  ◌<◌, ℕ, ◌≡◌, refl, sym, ◌∙◌, ap, Bytes, length, List, [], ◌∷◌, Option-cases, inl, inr, append-nil,
  Option, none, some,
}
use ervan.Config.{Config}
use ervan.Config.File.Bounds.{IsInRange, reload_config-IsInRange}
use ervan.Config.File.{reload_config}
use ervan.Config.Layout.{Layout, IsLawful}
use ervan.Common.Platform.{c_string}
use ervan.Config.Values.{
  with_text, LocalConfig, get_port, get_submissionport, get_maxmessagesize, get_maxrcpt,
}
use ervan.Config.Values.Carries.{
  hostname-written, arrived-fits, Carries, arrived, dump-undefined, hostname-Carries, port-Carries,
  submissionport-Carries, maxmessagesize-Carries, maxrcpt-Carries,
}
use ervan.Config.Sync.{
  Sent, request_then, request, response, received, update_then, updates, answer_then,
  monitor_request, monitor_requests, smtp_request, smtp_requests, kept, applied, sync,
}

-- The values of `main` as `get` reads them, each of them set, with what became of the hostname.
abbrev pub agreeing : Config → Bytes → LocalConfig
agreeing main text = record {
  hostname = some text;
  port = some (get_port main);
  submissionport = some (get_submissionport main);
  maxmessagesize = some (get_maxmessagesize main);
  maxrcpt = some (get_maxrcpt main);
}

module _ (m : Layout) (unset : Bytes) (main : Config) where
  -- The updates for these keys change the other configuration by `change`.
  abbrev Changes : List ℕ → (LocalConfig → LocalConfig) → Type 0
  Changes ids change =
      (messages : List Sent) × (updates m unset main ids ≡ some messages)
      × ((c : LocalConfig) → smtp_requests m (received messages) c ≡ some (change c))

  nil-Changes : Changes [] (λ c. c)
  unfolding updates smtp_requests
  nil-Changes = (response ∷ [], refl, λ c. refl)

  cons-Changes :
      (id : ℕ) (ids : List ℕ) (f g : LocalConfig → LocalConfig)
      → Carries m main unset id f
      → Changes ids g
      → Changes (id ∷ ids) (λ c. g (f c))
  unfolding update_then updates smtp_request smtp_requests request_then kept
  cons-Changes id ids f g (done, text, e, k) (messages, e', k') = (
    request (record { key = id; text = text }) ∷ messages,
    rw e (rw e' refl),
    λ c.
        ap (λ o. request_then m (smtp_requests m (received messages)) (kept m c o)) (k c)
        ∙ k' (f c),
  )

  Changes-applied :
      (change : LocalConfig → LocalConfig) (c : LocalConfig)
      → Changes (0 ∷ 1 ∷ 2 ∷ 4 ∷ 5 ∷ []) change
      → sync m unset main c ≡ some (change c)
  unfolding answer_then monitor_request monitor_requests applied sync
  Changes-applied change c (messages, e, k) = rw e (rw (append-nil messages) (k c))

  -- The outcome of the exchange for what arrives of the monitor's hostname.
  abbrev pub with_name : Option Bytes → Option LocalConfig
  with_name none = none
  with_name (some name) = some (agreeing main name)

  -- The outcome for the monitor's hostname; `none` is undefined behaviour.
  abbrev pub outcome : Option Bytes → Option LocalConfig
  outcome none = none
  outcome (some text) = with_name (arrived unset text)

  pub outcome-fits :
      (text : Bytes)
      → length text < length unset
      → outcome (some text) ≡ some (agreeing main (c_string text))
  outcome-fits text h = ap with_name (arrived-fits unset text h)

  sync-unset : (c : LocalConfig) → main.hostname ≡ none → sync m unset main c ≡ none
  unfolding updates update_then answer_then monitor_request monitor_requests applied sync
  sync-unset c e = rw (dump-undefined m main unset e) refl

  -- The values behind the hostname.
  numbers-Changes :
      IsLawful m
      → IsInRange main
      → length unset ≡ 256
      → Changes (1 ∷ 2 ∷ 4 ∷ 5 ∷ []) (λ c. record (agreeing main []) { hostname = c.hostname })
  numbers-Changes lawful range large =
      cons-Changes 1 _ _ _ (port-Carries m lawful main range unset large) (
        cons-Changes 2 _ _ _ (submissionport-Carries m lawful main range unset large) (
          cons-Changes 4 _ _ _ (maxmessagesize-Carries m lawful main range unset large)
            (cons-Changes 5 _ _ _ (maxrcpt-Carries m lawful main range unset large) nil-Changes)))

  -- An update with no NUL.
  sync-overread :
      {change : LocalConfig → LocalConfig} (text : Bytes)
      → Changes (1 ∷ 2 ∷ 4 ∷ 5 ∷ []) change
      → main.hostname ≡ some text
      → arrived unset text ≡ none
      → (c : LocalConfig) → sync m unset main c ≡ none
  unfolding update_then updates smtp_request smtp_requests request_then kept answer_then
      monitor_request monitor_requests applied sync
  sync-overread text (messages, e, k) h a c =
      let (done, written, d, set) = hostname-written m main text h unset in
      rw d (
        rw e (
          rw (append-nil messages) (
            ap (λ o. request_then m (smtp_requests m (received messages)) (kept m c o))
              (set c ∙ ap (λ o. with_text o c) a))))

  sync-named :
      IsLawful m
      → IsInRange main
      → length unset ≡ 256
      → (c : LocalConfig) (text : Bytes) → main.hostname ≡ some text
      → (o : Option Bytes) → arrived unset text ≡ o
      → sync m unset main c ≡ with_name o
  sync-named lawful range large c text e none a =
      sync-overread text (numbers-Changes lawful range large) e a c
  sync-named lawful range large c text e (some name) a = Changes-applied _ c (
      cons-Changes 0 _ _ _ (hostname-Carries m main text e unset name a)
        (numbers-Changes lawful range large))

  -- If the implementation lays numbers out so that they are read back, and the monitor's numbers fit
  -- their types, then the SMTP process has, after the exchange, each value that `get` yields in the
  -- monitor, whatever it had before. The hostname arrives up to its first NUL if it and a NUL fit in
  -- the 256 bytes of an update; if not, it is whatever text the update held before, and if none of the
  -- update's bytes is a NUL, the exchange is undefined behaviour. So it is without a hostname in the
  -- monitor.
  pub sync-outcome :
      IsLawful m
      → IsInRange main
      → length unset ≡ 256
      → (c : LocalConfig) → sync m unset main c ≡ outcome main.hostname
  sync-outcome lawful range large c = elim (Option-cases main.hostname) [
    | inl e ↦ sync-unset c e ∙ sym (ap outcome e)
    | inr (text, e) ↦
        sync-named lawful range large c text e (arrived unset text) refl ∙ sym (ap outcome e)
  ]

-- `config_all main_config`
abbrev pub no_config : Config
no_config = record {
  hostname = none;
  port = none;
  submissionport = none;
  debug = none;
  maxmessagesize = none;
  maxrcpt = none;
}

pub no_config-IsInRange : IsInRange no_config
no_config-IsInRange = record { port = tt; submissionport = tt; maxmessagesize = tt; maxrcpt = tt }

-- From the configuration file to the SMTP process: if numbers are laid out so that they are read
-- back, reading the file ends, whatever it holds, and the exchange about what was read from it has
-- the outcome that `outcome` gives: the values that `get` yields in the monitor.
pub reload_config-sync :
    (m : Layout) (unset : Bytes) (arbitrary : ℕ) (buffer : Bytes) (c : LocalConfig)
    → IsLawful m
    → length unset ≡ 256
    → (main : Config) × (reload_config arbitrary buffer no_config ≡ some main)
      × (sync m unset main c ≡ outcome m unset main main.hostname)
reload_config-sync m unset arbitrary buffer c lawful large =
    let (main, e, range) = reload_config-IsInRange arbitrary buffer no_config no_config-IsInRange in
    (main, e, sync-outcome m unset main lawful range large c)
