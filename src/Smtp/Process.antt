-- ===== src/Smtp/Process.antt =====
-- smtp/src/main.cpp: the SMTP process, from its request for the configuration to the connections
-- that it hands to sessions. The socket's calls, of eaio and the operating system, are a parameter.
pub mod Starts
mod Examples
use ervan.Base.{ℕ, ◌/◌, Bool, true, false, Bytes, List, [], ◌∷◌, Option, none, some, if◌then◌else◌}
use ervan.Config.{Config}
use ervan.Config.Layout.{Layout}
use ervan.Config.Values.{or_default, ensure, LocalConfig}
use ervan.Config.Sync.{sync}
use ervan.Smtp.Session.{Settings}

-- Whether each call on the socket succeeds, and the handles that `accept` yields until it fails.
pub record Network : Type 0 where
  pub setsockopt : Bool
  pub bind : ℕ → Bool
  pub listen : ℕ → Bool
  pub accepted : List ℕ

-- What the process writes to its log.
pub data Line : Type 0 where
  hostname_not_set : Line
  listening_as : Bytes → ℕ → ℕ → Line
  max_message_kib max_recipients : ℕ → Line
  new_connection accept_failed setsockopt_failed bind_failed listen_failed : Line

-- What it does: a line in the log, the socket's address, the length of its queue, a new session.
pub data Action : Type 0 where
  log : Line → Action
  bound_to queue_of spawned : ℕ → Action

-- config::get on local_config
abbrev pub local_hostname : LocalConfig → Bytes
local_hostname c = or_default c.hostname []

abbrev pub local_port : LocalConfig → ℕ
local_port c = or_default c.port 25

abbrev pub local_submissionport : LocalConfig → ℕ
local_submissionport c = or_default c.submissionport 587

abbrev pub local_maxmessagesize : LocalConfig → ℕ
local_maxmessagesize c = or_default c.maxmessagesize 33554432

abbrev pub local_maxrcpt : LocalConfig → ℕ
local_maxrcpt c = or_default c.maxrcpt 256

-- What a session reads of `cfg`.
abbrev pub settings : LocalConfig → Settings
settings c = record {
  hostname = local_hostname c;
  max_message_size = local_maxmessagesize c;
  max_rcpt = local_maxrcpt c;
}

-- The loop of `listen`.
pub accept_loop : List ℕ → List Action
accept_loop [] = log accept_failed ∷ []
accept_loop (handle ∷ handles) = log new_connection ∷ spawned handle ∷ accept_loop handles

pub listen : LocalConfig → List ℕ → List Action
listen c handles =
    let opened =
      log (listening_as (local_hostname c) (local_port c) (local_submissionport c))
      ∷ log (max_message_kib (local_maxmessagesize c / 1024))
      ∷ log (max_recipients (local_maxrcpt c))
      ∷ accept_loop handles in
    if ensure c.hostname then opened else log hostname_not_set ∷ []

-- `start` behind the response to its request.
pub start_listening : Network → LocalConfig → List Action
start_listening net c =
    if net.setsockopt
    then bound_to (local_port c)
      ∷ (if net.bind (local_port c)
          then queue_of 32
            ∷ (if net.listen 32 then listen c net.accepted else log listen_failed ∷ [])
          else log bind_failed ∷ [])
    else log setsockopt_failed ∷ []

start_synced : Network → Option LocalConfig → Option (List Action)
start_synced net none = none
start_synced net (some c) = some (start_listening net c)

-- `start`, with the monitor's answer to its request; `none` is undefined behaviour.
pub start : Layout → Bytes → Network → Config → LocalConfig → Option (List Action)
start m unset net main c = start_synced net (sync m unset main c)
