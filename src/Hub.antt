-- ===== src/Hub.antt =====
-- The hub of the websocket clients (ws/hub.go). The loop of `Run` goes over what its `select` meets;
-- the goroutines that it starts are a list.
pub mod Closing
mod Tests
use masc_server.Prelude.{
  ℕ, Option, none, some, List, [], ◌∷◌, Dict, lookup, insert, delete, nat_key,
}

-- What the `select` of `Run` meets: the end of the context, or a client that wants to be registered
-- or unregistered. A client is known by its pointer, which is a number here.
pub data HubEvent : Type 0 where
  done : HubEvent
  register unregister : ℕ → HubEvent

-- A goroutine of the hub: one that lets the listener accept a client, or one that lets it say goodbye
-- to a client and then closes the client's channel.
pub data Started : Type 0 where
  accept_client say_goodbye_and_close : ℕ → Started

-- The registered clients, and the goroutines that were started, the last one first.
pub record Hub : Type 0 where
  pub clients : Dict {0, 0} ℕ Unit
  pub started : List Started

unfoldable pub new_hub : Hub
new_hub = record { clients = []; started = [] }

register_client : ℕ → Hub → Hub
register_client c h = record {
  clients = insert c tt h.clients;
  started = accept_client c ∷ h.started;
}

unregister_known : ℕ → Option {0} Unit → Hub → Hub
unregister_known c none h = h
unregister_known c (some _) h = record {
  clients = delete c h.clients;
  started = say_goodbye_and_close c ∷ h.started;
}

unregister_client : ℕ → Hub → Hub
unfolding unregister_known
unregister_client c h = unregister_known c (lookup c h.clients) h

unfoldable pub run_hub : List HubEvent → Hub → Hub
unfolding register_client unregister_client
run_hub [] h = h
run_hub (done ∷ events) h = h
run_hub (register c ∷ events) h = run_hub events (register_client c h)
run_hub (unregister c ∷ events) h = run_hub events (unregister_client c h)
