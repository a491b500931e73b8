-- ===== src/Gatekeeping.antt =====
-- The gatekeeper (gatekeeping/net.go): what it keeps, and the hello of a new client.
pub mod Clients
pub mod Hello
mod Tests
use masc_server.Prelude.{
  ℕ, String, Bool, true, false, Option, none, some, List, [], ◌∷◌, if◌then◌else◌, Dict, string_key,
  ◌==◌,
}
use masc_server.Errors.{GoError, wrap}
use masc_server.Errors.Results.{Result, Done, ok, failed}
use masc_server.Errors.Generators.{new_json_error}
use masc_server.Messages.{MessageError}

-- `stores.Device`
pub record StoreDevice : Type 0 where
  pub id : String
  pub name : Option String
  pub self_description : String
  pub last_seen : ℕ

-- `GatekeeperStore`, whose state is a `D`.
pub record GatekeeperStore (D : Type 0) : Type 0 where
  pub get_devices : D → Result (List StoreDevice)
  pub create_new_device : String → D → D × Result StoreDevice
  pub refresh_last_seen_for_device : String → D → D × Done
  pub set_device_name : String → String → D → D × Done
  pub delete_device : String → D → D × Done
  pub set_device_self_description : String → String → D → D × Done

-- `Device` of gatekeeping/gatekeeping.go. `pumps` is the number of its pumps, which stands for the
-- channels and for `ShutdownPumps`; `last_seen` is the time of the hello.
pub record GateDevice : Type 0 where
  pub id : String
  pub name : Option String
  pub self_description : String
  pub is_connected : Bool
  pub last_seen : ℕ
  pub roles : List String
  pub pumps : ℕ

-- `Protected`, whose state is a `P`; the last result is the error.
pub record Protected (P : Type 0) : Type 0 where
  pub welcome_device : GateDevice → P → P × GoError
  pub say_goodbye_to_device : String → P → P × GoError

-- What a client is sent by the gatekeeper itself.
pub data Note : Type 0 where
  welcome : String → Option String → Note
  refusal : MessageError → Note

-- `NetGatekeeper` with its store; a client is known by an id. `sent` holds what clients are sent,
-- `started` counts the pumps that were started, and `stopped` holds those that were shut down.
pub record NetGatekeeper (D P : Type 0) : Type 0 where
  pub store : D
  pub protected : Option P
  pub online_devices : Dict String GateDevice
  pub sent : List (String × Note)
  pub started : ℕ
  pub stopped : List ℕ

-- `MessageHello`
pub record MessageHello : Type 0 where
  pub self_description : String
  pub roles : List String

-- A hello's `MessageContainer`, as far as it is read.
pub record Container : Type 0 where
  pub device_id : String
  pub content : String

-- `json.Unmarshal` of a container and of a hello.
pub record Unmarshal : Type 0 where
  pub container : String → Result Container
  pub hello : String → Result MessageHello

module _ {D P : Type 0} (store : GatekeeperStore D) where
  unfoldable pub new_net_gatekeeper : D → NetGatekeeper D P
  new_net_gatekeeper s = record {
    store = s;
    protected = none;
    online_devices = [];
    sent = [];
    started = 0;
    stopped = [];
  }

  -- `WakeUpAndProtect` and `Retire`, which return nil always.
  unfoldable pub wake_up_and_protect : P → NetGatekeeper D P → NetGatekeeper D P
  wake_up_and_protect p gk = record gk { protected = some p }

  unfoldable pub retire : NetGatekeeper D P → NetGatekeeper D P
  retire gk = record gk { protected = none }

  -- `SetDeviceName` and `DeleteDevice`
  unfoldable pub set_device_name : String → String → NetGatekeeper D P → NetGatekeeper D P × Done
  set_device_name id name gk =
      let (s, e) = store.set_device_name id name gk.store in (record gk { store = s }, e)

  unfoldable pub delete_device : String → NetGatekeeper D P → NetGatekeeper D P × Done
  delete_device id gk = let (s, e) = store.delete_device id gk.store in (record gk { store = s }, e)

-- The search of a hello among the known devices.
pub find_device : String → List StoreDevice → Option StoreDevice
find_device id [] = none
find_device id (d ∷ ds) = if d.id == id then some d else find_device id ds

-- The new device with an id, a name and a description, at a time; its pumps are started later.
abbrev pub device_with : ℕ → MessageHello → String → Option String → String → GateDevice
device_with now hello id name description = record {
  id = id;
  name = name;
  self_description = description;
  is_connected = true;
  last_seen = now;
  roles = hello.roles;
  pumps = 0;
}

module _ {D : Type 0} (store : GatekeeperStore D) where
  once_created : ℕ → MessageHello → D × Result StoreDevice → D × Result GateDevice
  once_created now hello (s, failed e) = (s, failed (wrap e "create new device" none))
  once_created now hello (s, ok d) = (s, ok (device_with now hello d.id d.name d.self_description))

  -- A device that is not known is created.
  create_device : ℕ → MessageHello → D → D × Result GateDevice
  unfolding once_created
  create_device now hello s =
      once_created now hello (store.create_new_device hello.self_description s)

  once_described : ℕ → MessageHello → StoreDevice → D × Done → D × Result GateDevice
  once_described now hello d (s, failed e) =
      (s, failed (wrap e "update device self-description" none))
  once_described now hello d (s, ok _) =
      (s, ok (device_with now hello d.id d.name hello.self_description))

  -- A device that is known keeps its id and name; its description is updated where it has changed.
  recognise : ℕ → MessageHello → Option StoreDevice → D → D × Result GateDevice
  unfolding create_device once_described
  recognise now hello none s = create_device now hello s
  recognise now hello (some d) s =
      if d.self_description == hello.self_description
      then once_described now hello d (s, ok tt)
      else once_described now hello d
          (store.set_device_self_description d.id hello.self_description s)

  claimed : ℕ → MessageHello → String → Result (List StoreDevice) → D → D × Result GateDevice
  unfolding recognise find_device
  claimed now hello id (failed e) s = (s, failed (wrap e "get devices" none))
  claimed now hello id (ok known) s = recognise now hello (find_device id known) s

  -- The device of a hello, with the id that the client claims to have.
  identify : ℕ → MessageHello → String → D → D × Result GateDevice
  unfolding claimed create_device
  identify now hello id s =
      if id == "" then create_device now hello s else claimed now hello id (store.get_devices s) s

  once_refreshed : GateDevice → D × Done → D × Result GateDevice
  once_refreshed d (s, failed e) = (s, failed (wrap e "set device online" none))
  once_refreshed d (s, ok _) = (s, ok d)

  refreshed : D × Result GateDevice → D × Result GateDevice
  unfolding once_refreshed
  refreshed (s, failed e) = (s, failed e)
  refreshed (s, ok d) = once_refreshed d (store.refresh_last_seen_for_device d.id s)

  greet : ℕ → String → Result MessageHello → D → D × Result GateDevice
  unfolding identify refreshed
  greet now id (failed e) s = (s, failed (new_json_error e "unmarshal hello message content" true))
  greet now id (ok hello) s = refreshed (identify now hello id s)

  open_container : Unmarshal → ℕ → Result Container → D → D × Result GateDevice
  unfolding greet
  open_container json now (failed e) s =
      (s, failed (new_json_error e "unmarshal hello message container" true))
  open_container json now (ok c) s = greet now c.device_id (json.hello c.content) s

  -- `handleHelloFromNewClient`, at a time.
  unfoldable pub handle_hello_from_new_client : Unmarshal → ℕ → String → D → D × Result GateDevice
  unfolding open_container
  handle_hello_from_new_client json now raw s = open_container json now (json.container raw) s
