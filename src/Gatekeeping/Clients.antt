-- ===== src/Gatekeeping/Clients.antt =====
-- Clients come and go (gatekeeping/net.go): the loop of `AcceptClient`, `SayGoodbyeToClient` and
-- `GetDevices`.
pub mod Pumps
pub mod Roster
use masc_server.Prelude.{
  ℕ, suc, String, Bool, true, false, Option, none, some, List, [], ◌∷◌, ◌++◌, if◌then◌else◌, Dict,
  lookup, insert, delete, string_key, ◌==◌,
}
use masc_server.Errors.{GoError, nil, native, masc, wrap}
use masc_server.Errors.Results.{Result, Done, ok, failed}
use masc_server.Messages.{message_error_from_error}
use masc_server.Gatekeeping.{
  StoreDevice, GatekeeperStore, GateDevice, Protected, Note, welcome, refusal, NetGatekeeper,
  Unmarshal, handle_hello_from_new_client,
}

-- What `AcceptClient` meets: the end of the context, a raw message, or the end of the client's channel.
pub data Arrival : Type 0 where
  done closed : Arrival
  raw : String → Arrival

-- How the call stands: it waits for further arrivals, it has returned, or it has panicked.
pub data Progress : Type 0 where
  waiting returned panicked : Progress

-- A device as `GetDevices` lists it.
pub record ListedDevice : Type 0 where
  pub id : String
  pub name : Option String
  pub self_description : String
  pub last_seen : ℕ
  pub is_connected : Bool
  pub roles : List String

module _ {D P : Type 0} (store : GatekeeperStore D) (guarded : Protected P) (json : Unmarshal) where
  -- `logAndSendErrorMessage`. The error message always marshals.
  log_and_send_error_message : GoError → String → NetGatekeeper D P → NetGatekeeper D P
  log_and_send_error_message e client gk = record gk {
    sent = gk.sent ++ (client, refusal (message_error_from_error e)) ∷ [];
  }

  -- What follows the call of `WelcomeDevice`.
  after_welcome : String → P × GoError → NetGatekeeper D P → NetGatekeeper D P × Progress
  unfolding log_and_send_error_message
  after_welcome client (p, nil) gk = (record gk { protected = some p }, returned)
  after_welcome client (p, native s) gk = (
    log_and_send_error_message (wrap (native s) "welcome device" none) client
        (record gk { protected = some p }),
    waiting,
  )
  after_welcome client (p, masc e) gk = (
    log_and_send_error_message (wrap (masc e) "welcome device" none) client
        (record gk { protected = some p }),
    waiting,
  )

  -- A gatekeeper that protects nobody calls a method of a nil interface.
  introduce : String → GateDevice → Option P → NetGatekeeper D P → NetGatekeeper D P × Progress
  unfolding after_welcome
  introduce client d none gk = (gk, panicked)
  introduce client d (some p) gk = after_welcome client (guarded.welcome_device d p) gk

  -- The pumps are started, the welcome is sent, and the device is online.
  abbrev pub let_in : String → GateDevice → NetGatekeeper D P → NetGatekeeper D P
  let_in client d gk = record gk {
    started = suc gk.started;
    sent = gk.sent ++ (client, welcome d.id d.name) ∷ [];
    online_devices = insert client (record d { pumps = gk.started }) gk.online_devices;
  }

  greeted : String → Result GateDevice → NetGatekeeper D P → NetGatekeeper D P × Progress
  unfolding introduce log_and_send_error_message
  greeted client (failed e) gk = (log_and_send_error_message e client gk, waiting)
  greeted client (ok d) gk =
      introduce client (record d { pumps = gk.started }) gk.protected (let_in client d gk)

  -- One round of the loop of `AcceptClient`, at a time. The end of the context is only logged.
  unfoldable pub accept_round :
      String → ℕ → Arrival → NetGatekeeper D P → NetGatekeeper D P × Progress
  unfolding greeted
  accept_round client now done gk = (gk, waiting)
  accept_round client now closed gk = (gk, returned)
  accept_round client now (raw message) gk =
      let (s, r) = handle_hello_from_new_client store json now message gk.store in
      greeted client r (record gk { store = s })

  next_round :
      NetGatekeeper D P × Progress → NetGatekeeper D P × Progress → NetGatekeeper D P × Progress
  next_round (gk, waiting) rest = rest
  next_round (gk, returned) rest = (gk, returned)
  next_round (gk, panicked) rest = (gk, panicked)

  -- `AcceptClient`
  unfoldable pub accept_client :
      String → List (ℕ × Arrival) → NetGatekeeper D P → NetGatekeeper D P × Progress
  unfolding accept_round next_round
  accept_client client [] gk = (gk, waiting)
  accept_client client ((now, arrival) ∷ arrivals) gk =
      let (gk', progress) = accept_round client now arrival gk in
      next_round (gk', progress) (accept_client client arrivals gk')

  farewell : String → GateDevice → P × GoError → NetGatekeeper D P → NetGatekeeper D P × Progress
  farewell client d (p, nil) gk = (
    record gk {
      protected = some p;
      stopped = d.pumps ∷ gk.stopped;
      online_devices = delete client gk.online_devices;
    },
    returned,
  )
  farewell client d (p, native s) gk = (record gk { protected = some p }, returned)
  farewell client d (p, masc e) gk = (record gk { protected = some p }, returned)

  tell_protected : String → GateDevice → Option P → NetGatekeeper D P → NetGatekeeper D P × Progress
  unfolding farewell
  tell_protected client d none gk = (gk, panicked)
  tell_protected client d (some p) gk = farewell client d (guarded.say_goodbye_to_device d.id p) gk

  seen_off : String → GateDevice → D × Done → NetGatekeeper D P → NetGatekeeper D P × Progress
  unfolding tell_protected
  seen_off client d (s, failed e) gk = (record gk { store = s }, returned)
  seen_off client d (s, ok _) gk = tell_protected client d gk.protected (record gk { store = s })

  see_off : String → Option GateDevice → NetGatekeeper D P → NetGatekeeper D P × Progress
  unfolding seen_off
  see_off client none gk = (gk, returned)
  see_off client (some d) gk =
      seen_off client d (store.refresh_last_seen_for_device d.id gk.store) gk

  -- `SayGoodbyeToClient`. Its errors are only logged.
  unfoldable pub say_goodbye_to_client : String → NetGatekeeper D P → NetGatekeeper D P × Progress
  unfolding see_off
  say_goodbye_to_client client gk = see_off client (lookup client gk.online_devices) gk

  -- The index of `GetDevices` of the online devices by their ids.
  index_online : Dict String GateDevice → Dict String GateDevice → Dict String GateDevice
  index_online [] index = index
  index_online ((client, d) ∷ rest) index = index_online rest (insert d.id d index)

  list_device : StoreDevice → Option GateDevice → ListedDevice
  list_device d none = record {
    id = d.id;
    name = d.name;
    self_description = d.self_description;
    last_seen = d.last_seen;
    is_connected = false;
    roles = [];
  }
  list_device d (some online) = record {
    id = d.id;
    name = d.name;
    self_description = d.self_description;
    last_seen = d.last_seen;
    is_connected = true;
    roles = online.roles;
  }

  list_each : List StoreDevice → Dict String GateDevice → List ListedDevice
  unfolding list_device
  list_each [] index = []
  list_each (d ∷ ds) index = list_device d (lookup d.id index) ∷ list_each ds index

  listed : Result (List StoreDevice) → NetGatekeeper D P → Result (List ListedDevice)
  unfolding list_each index_online
  listed (failed e) gk = failed (wrap e "get devices from store" none)
  listed (ok ds) gk = ok (list_each ds (index_online gk.online_devices []))

  -- `GetDevices`
  unfoldable pub get_devices : NetGatekeeper D P → Result (List ListedDevice)
  unfolding listed
  get_devices gk = listed (store.get_devices gk.store) gk
