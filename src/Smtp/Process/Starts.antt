-- ===== src/Smtp/Process/Starts.antt =====
-- From the monitor's configuration to the sessions of the SMTP process.
use ervan.Base.{
  ℕ, ◌+◌, ◌^◌, ◌≤◌, ◌<◌, arith, ◌/◌, ◌≡◌, refl, ap, ◌∙◌, Bool, true, false, ◌&&◌, if◌then◌else◌,
  Bytes, length, All, List, [], ◌∷◌, some,
}
use ervan.Common.Platform.{Platform, c_string}
use ervan.Config.{Config}
use ervan.Config.File.Bounds.{IsInRange}
use ervan.Config.Layout.{Layout, IsLawful}
use ervan.Config.Values.{get_port, get_submissionport, get_maxmessagesize, get_maxrcpt, LocalConfig}
use ervan.Config.Sync.{sync}
use ervan.Config.Sync.Agrees.{agreeing, outcome, outcome-fits, sync-outcome}
use ervan.Smtp.Session.{Settings, Session, new_session, reset}
use ervan.Smtp.Valid.{new_session-IsValid}
use ervan.Smtp.Feed.{max_line_length, handle}
use ervan.Smtp.Feed.Pieces.Message.{whole}
use ervan.Smtp.Feed.Lines.{Rooms}
use ervan.Smtp.Feed.Lines.Rounds.{Ready-new}
use ervan.Smtp.Feed.Lines.Ends.{Ends, handle-Ends}
use ervan.Strings.Join.Lines.{lines}
use ervan.Strings.Join.Refines.{Holds}
use ervan.Smtp.Process.{
  Network, Line, hostname_not_set, Action, log, listening_as, max_message_kib, max_recipients,
  listen_failed, bind_failed, setsockopt_failed, bound_to, queue_of, spawned, accept_loop, listen,
  start_listening, start_synced, start, settings,
}

-- The connections that sessions were started for, in order.
abbrev pub sessions : List Action → List ℕ
sessions [] = []
sessions (spawned handle ∷ actions) = handle ∷ sessions actions
sessions (log line ∷ actions) = sessions actions
sessions (bound_to port ∷ actions) = sessions actions
sessions (queue_of n ∷ actions) = sessions actions

-- The ports that `bind` was called with.
abbrev pub ports : List Action → List ℕ
ports [] = []
ports (bound_to port ∷ actions) = port ∷ ports actions
ports (log line ∷ actions) = ports actions
ports (queue_of n ∷ actions) = ports actions
ports (spawned handle ∷ actions) = ports actions

abbrev pub complains : Action → Bool
complains (log hostname_not_set) = true
complains _ = false

-- The process binds the port of the configuration, once the socket is set up; if all calls on the
-- socket succeed, it starts a session for each connection that is accepted, in order, and for none
-- otherwise; and it never says that there is no hostname.
pub record Serves (set_up bound queued : Bool) (port : ℕ) (accepted : List ℕ)
    (actions : List Action) : Type 0 where
  pub binds : ports actions ≡ (if set_up then port ∷ [] else [])
  pub serves : sessions actions ≡ (if set_up && (bound && queued) then accepted else [])
  pub silent : All (λ a. complains a ≡ false) actions

sessions-accept_loop : (handles : List ℕ) → sessions (accept_loop handles) ≡ handles
unfolding accept_loop
sessions-accept_loop [] = refl
sessions-accept_loop (h ∷ handles) = ap (◌∷◌ h) (sessions-accept_loop handles)

ports-accept_loop : (handles : List ℕ) → ports (accept_loop handles) ≡ []
unfolding accept_loop
ports-accept_loop [] = refl
ports-accept_loop (h ∷ handles) = ports-accept_loop handles

accept_loop-silent : (handles : List ℕ) → All (λ a. complains a ≡ false) (accept_loop handles)
unfolding accept_loop
accept_loop-silent [] = (refl, tt)
accept_loop-silent (h ∷ handles) = (refl, (refl, accept_loop-silent handles))

-- Lines in the log, and what follows them.
abbrev logged : List Line → List Action → List Action
logged [] actions = actions
logged (line ∷ lines) actions = log line ∷ logged lines actions

sessions-logged :
    (lines : List Line) (actions : List Action) → sessions (logged lines actions) ≡ sessions actions
sessions-logged [] actions = refl
sessions-logged (line ∷ lines) actions = sessions-logged lines actions

ports-logged :
    (lines : List Line) (actions : List Action) → ports (logged lines actions) ≡ ports actions
ports-logged [] actions = refl
ports-logged (line ∷ lines) actions = ports-logged lines actions

logged-silent :
    (lines : List Line) (actions : List Action)
    → All (λ l. complains (log l) ≡ false) lines
    → All (λ a. complains a ≡ false) actions
    → All (λ a. complains a ≡ false) (logged lines actions)
logged-silent [] actions h k = k
logged-silent (line ∷ lines) actions (e, h) k = (e, logged-silent lines actions h k)

accept_loop-Serves :
    (set_up bound queued : Bool) (port : ℕ) (accepted : List ℕ) (opened : List Line)
    → All (λ l. complains (log l) ≡ false) opened
    → Serves set_up bound queued port accepted (
        if set_up
        then bound_to port
          ∷ (if bound
              then queue_of 32
                ∷ (if queued then logged opened (accept_loop accepted) else log listen_failed ∷ [])
              else log bind_failed ∷ [])
        else log setsockopt_failed ∷ [])
accept_loop-Serves false bound queued port accepted opened h = record {
  binds = refl;
  serves = refl;
  silent = (refl, tt);
}
accept_loop-Serves true false queued port accepted opened h = record {
  binds = refl;
  serves = refl;
  silent = (refl, (refl, tt));
}
accept_loop-Serves true true false port accepted opened h = record {
  binds = refl;
  serves = refl;
  silent = (refl, (refl, (refl, tt)));
}
accept_loop-Serves true true true port accepted opened h = record {
  binds = ap (◌∷◌ port) (ports-logged opened (accept_loop accepted) ∙ ports-accept_loop accepted);
  serves = sessions-logged opened (accept_loop accepted) ∙ sessions-accept_loop accepted;
  silent =
      (refl, (refl, logged-silent opened (accept_loop accepted) h (accept_loop-silent accepted)));
}

start_listening-Serves :
    (net : Network) (main : Config) (text : Bytes)
    → Serves net.setsockopt
        (net.bind (get_port main))
        (net.listen 32)
        (get_port main)
        net.accepted
        (start_listening net (agreeing main text))
unfolding listen start_listening
start_listening-Serves net main text =
    accept_loop-Serves net.setsockopt (net.bind (get_port main)) (net.listen 32) (get_port main)
      net.accepted
      (listening_as text (get_port main) (get_submissionport main)
        ∷ max_message_kib (get_maxmessagesize main / 1024)
        ∷ max_recipients (get_maxrcpt main)
        ∷ [])
      (refl, (refl, (refl, tt)))

module _ (m : Layout) (unset : Bytes) (main : Config) where
  sync-fits :
      (text : Bytes) (c : LocalConfig)
      → IsLawful m
      → IsInRange main
      → length unset ≡ 256
      → main.hostname ≡ some text
      → length text < 256
      → sync m unset main c ≡ some (agreeing main (c_string text))
  sync-fits text c lawful range large e fits =
      sync-outcome m unset main lawful range large c
      ∙ ap (outcome m unset main) e
      ∙ outcome-fits m unset main text (omega arith)

  -- If numbers are laid out so that they are read back, and the monitor's numbers fit their types and
  -- it has a hostname of less than 256 bytes: the process asks for the configuration and binds the monitor's port once the
  -- socket is set up; if the calls on the socket succeed, it starts a session for each accepted
  -- connection, in order, and else for none; and it never says that the hostname is not set.
  pub start-Serves :
      (net : Network) (text : Bytes) (c : LocalConfig)
      → IsLawful m
      → IsInRange main
      → length unset ≡ 256
      → main.hostname ≡ some text
      → length text < 256
      → (actions : List Action) × (start m unset net main c ≡ some actions)
        × Serves net.setsockopt
            (net.bind (get_port main))
            (net.listen 32)
            (get_port main)
            net.accepted
            actions
  unfolding start_synced start
  start-Serves net text c lawful range large e fits = (
    start_listening net (agreeing main (c_string text)),
    ap (start_synced net) (sync-fits text c lawful range large e fits),
    start_listening-Serves net main (c_string text),
  )

  -- The monitor's values, as a session reads them.
  abbrev pub monitor_settings : Bytes → Settings
  monitor_settings text = record {
    hostname = c_string text;
    max_message_size = get_maxmessagesize main;
    max_rcpt = get_maxrcpt main;
  }

  -- If numbers are laid out so that they are read back, and the monitor's numbers fit their types
  -- and it has a hostname of less than 256 bytes: the exchange gives the SMTP process a
  -- configuration, and a connection that it then handles ends, whatever the members of its session
  -- held before, if the buffers of the session are empty, the one for a message of at least 1000
  -- bytes, and the client sends pieces none of which is empty and less than 2 GiB in all. It reads
  -- behind a line only if one of the lines that CR LF cuts the input into is of four bytes and
  -- names EHLO, HELO, MAIL or RCPT; else it leaves a session that is valid for the monitor's
  -- limits.
  pub sync-handle :
      (text : Bytes) (c : LocalConfig) (p : Platform) (r : Rooms) (fresh : Session p)
      (pieces : List Bytes)
      → IsLawful m
      → IsInRange main
      → length unset ≡ 256
      → main.hostname ≡ some text
      → length text < 256
      → max_line_length + 2 ≤ r.message
      → Holds r.command fresh.cmd_buffer 0 []
      → Holds r.message fresh.line_buffer 0 []
      → All (λ a. 0 < length a) pieces
      → length (whole pieces) < 2 ^ 31
      → (c' : LocalConfig) × (sync m unset main c ≡ some c')
        × Ends
            (monitor_settings text)
            false
            (lines [] (whole pieces))
            (handle p (settings c') pieces (new_session p (settings c') fresh))
  unfolding new_session reset
  sync-handle text c p r fresh pieces lawful range large e fits wide command message some_left
        bound =
      let cfg = monitor_settings text in
      let s = new_session p cfg fresh in
      (
        agreeing main (c_string text),
        sync-fits text c lawful range large e fits,
        handle-Ends cfg false r pieces s wide (new_session-IsValid cfg fresh)
            (Ready-new p cfg r s command message) some_left bound,
      )
