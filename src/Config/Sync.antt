-- ===== src/Config/Sync.antt =====
-- The configuration's way from the monitor to the SMTP process: `handle_eipc` of main/src/main.cpp
-- and of smtp/src/main.cpp, with the messages of common/include/ervan/ipc.hpp. The library eipc, which
-- carries them, keeps their order and their contents; `recv_request` yields the given requests and
-- then fails.
pub mod Agrees
pub mod Examples
use ervan.Base.{ℕ, Bool, true, false, Bytes, List, [], ◌∷◌, ◌++◌, Option, none, some}
use ervan.Config.{Config}
use ervan.Config.Layout.{Layout}
use ervan.Config.Values.{
  LocalConfig, Dumped, dumped, undefined, Assigned, assigned, refused, overread, dump, set_by_id,
  local_ids,
}

-- `config_update`
pub record Update : Type 0 where
  pub key : ℕ
  pub text : Bytes

-- A request by its function: FUNC_RELOADCONFIG, FUNC_READCONFIG, FUNC_WRITECONFIGKEY.
pub data Request : Type 0 where
  reload_config : Request
  read_config : List ℕ → Request
  write_config_key : Update → Request

-- What an endpoint sends: a request of its own, or the response to the one at hand.
pub data Sent : Type 0 where
  request : Update → Sent
  response : Sent

module _ (m : Layout) (unset : Bytes) where
  update_then : ℕ → Option (List Sent) → Dumped → Option (List Sent)
  update_then id more undefined = none
  update_then id none (dumped done text) = none
  update_then id (some more) (dumped done text) =
      some (request (record { key = id; text = text }) ∷ more)

  -- The loop over the keys; what `dump` answers is not read. `unset` is what `config_update` holds
  -- before; `none` is undefined behaviour.
  pub updates : Config → List ℕ → Option (List Sent)
  updates c [] = some (response ∷ [])
  updates c (id ∷ ids) = update_then id (updates c ids) (dump m c id unset)

  answer_then : Option (List Sent) → Option (List Sent) → Option (List Sent)
  answer_then none rest = none
  answer_then (some now) none = none
  answer_then (some now) (some later) = some (now ++ later)

  -- One request to the monitor: any but FUNC_READCONFIG is left without a response.
  pub monitor_request : Config → Request → Option (List Sent)
  monitor_request c (read_config ids) = updates c ids
  monitor_request c _ = some []

  -- main::handle_eipc
  pub monitor_requests : Config → List Request → Option (List Sent)
  monitor_requests c [] = some []
  monitor_requests c (r ∷ rs) = answer_then (monitor_request c r) (monitor_requests c rs)

module _ (m : Layout) where
  -- What `cfg.set` answers is not read; `none` is undefined behaviour.
  kept : LocalConfig → Assigned → Option (LocalConfig × ℕ)
  kept c (assigned c') = some (c', 1)
  kept c refused = some (c, 1)
  kept c overread = none

  -- One request to the SMTP process, with its number of responses.
  pub smtp_request : Request → LocalConfig → Option (LocalConfig × ℕ)
  smtp_request (write_config_key u) c = kept c (set_by_id m u.key u.text c)
  smtp_request _ c = some (c, 0)

  request_then : (LocalConfig → Option LocalConfig) → Option (LocalConfig × ℕ) → Option LocalConfig
  request_then next none = none
  request_then next (some (c, responses)) = next c

  -- smtp::handle_eipc
  pub smtp_requests : List Request → LocalConfig → Option LocalConfig
  smtp_requests [] c = some c
  smtp_requests (r ∷ rs) c = request_then (smtp_requests rs) (smtp_request r c)

-- cfg.key_list
abbrev pub key_list : List ℕ
key_list = 0 ∷ 1 ∷ 2 ∷ 4 ∷ 5 ∷ []

-- The requests among what was sent, as the other side receives them.
abbrev pub received : List Sent → List Request
received [] = []
received (request u ∷ rest) = write_config_key u ∷ received rest
received (response ∷ rest) = received rest

module _ (m : Layout) (unset : Bytes) where
  applied : LocalConfig → Option (List Sent) → Option LocalConfig
  applied c none = none
  applied c (some messages) = smtp_requests m (received messages) c

  -- The part of smtp::start up to the response: the request for the keys, and the updates.
  pub sync : Config → LocalConfig → Option LocalConfig
  sync main c = applied c (monitor_requests m unset main (read_config key_list ∷ []))
