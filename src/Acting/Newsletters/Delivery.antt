-- ===== src/Acting/Newsletters/Delivery.antt =====
-- From the device to the reader of a newsletter: what is sent is what is read, until unsubscribing.
use masc_server.Prelude.{
  ℕ, zero, suc, String, true, false, ◌≡◌, refl, ap, sym, ◌∙◌, ◌≢◌, Option, none, some, List, [],
  ◌∷◌, ◌++◌, map, arith, lookup, nat_key, string_key, ◌==◌, eq_iff, if◌then◌else◌,
}
use masc_server.Acting.Subscriptions.{Subscription, SubscriptionManager, Message, handle_message}
use masc_server.Acting.Subscriptions.Slots.{times}
use masc_server.Acting.Subscriptions.Coherence.{Coherent, expected}
use masc_server.Acting.Subscriptions.Delivery.{handle_message_once}
use masc_server.Acting.Newsletters.{
  Turn, taken, read, decoded_or_logged, subscribe_decoded, subscribe_notify_for_message_type,
}
use masc_server.Acting.Newsletters.Subscribing.{
  subscribe_message_type_set_device_name, subscribe_message_type_delete_device,
  subscribe_message_type_get_devices, subscribe_message_type_role_assignments,
  subscribe_message_type_abort_match, subscribe_message_type_ready_state,
  subscribe_message_type_player_join, subscribe_message_type_player_leave,
  subscribe_message_type_fixture_offers, subscribe_message_type_set_fixture_name,
  subscribe_message_type_get_fixtures, subscribe_message_type_delete_fixture,
  subscribe_message_type_get_fixture_states, subscribe_message_type_set_fixtures_enabled,
  subscribe_message_type_set_fixtures_locating, subscribe_message_type_light_switch_hi_lo_state,
  subscribe_message_type_light_switch_offers, subscribe_message_type_update_light_switch,
  subscribe_message_type_delete_light_switch,
}
use masc_server.Acting.Newsletters.Topics.{
  Topic, Payload, message_type, subscribe_topic, set_device_name, delete_device, get_devices,
  role_assignments, abort_match, ready_state, player_join, player_leave, fixture_offers,
  set_fixture_name, get_fixtures, delete_fixture, get_fixture_states, set_fixtures_enabled,
  set_fixtures_locating, light_switch_hi_lo_state, light_switch_offers, update_light_switch,
  delete_light_switch,
}

abbrev copies {ℓ} : {A : Type ℓ} → ℕ → A → List A
copies zero a = []
copies (suc n) a = a ∷ copies n a

-- What the newsletter of a subscription meets of messages that the manager handles one after the
-- other, while its reader takes all that is sent.
abbrev pub turns : Subscription → SubscriptionManager → List Message → List Turn
turns sub m [] = []
turns sub m (msg ∷ msgs) =
    copies (times sub.token (handle_message (λ s. true) msg m)) (taken msg.content)
    ++ turns sub m msgs

-- The inverse of `message_type`.
topic_of : String → Option Topic
topic_of s =
    if s == "set-device-name"
    then some set_device_name
    else if s == "delete-device"
    then some delete_device
    else if s == "get-devices"
    then some get_devices
    else if s == "role-assignments"
    then some role_assignments
    else if s == "abort-match"
    then some abort_match
    else if s == "ready-state"
    then some ready_state
    else if s == "player-join"
    then some player_join
    else if s == "player-leave"
    then some player_leave
    else if s == "fixture-offers"
    then some fixture_offers
    else if s == "set-fixture-name"
    then some set_fixture_name
    else if s == "get-fixtures"
    then some get_fixtures
    else if s == "delete-fixture"
    then some delete_fixture
    else if s == "get-fixture-states"
    then some get_fixture_states
    else if s == "set-fixtures-enabled"
    then some set_fixtures_enabled
    else if s == "set-fixtures-locating"
    then some set_fixtures_locating
    else if s == "light-switch-hi-lo-state"
    then some light_switch_hi_lo_state
    else if s == "light-switch-offers"
    then some light_switch_offers
    else if s == "update-light-switch"
    then some update_light_switch
    else if s == "delete-light-switch"
    then some delete_light_switch
    else none

topic_of-message_type : (topic : Topic) → topic_of (message_type topic) ≡ some topic
unfolding topic_of
topic_of-message_type set_device_name = refl
topic_of-message_type delete_device = refl
topic_of-message_type get_devices = refl
topic_of-message_type role_assignments = refl
topic_of-message_type abort_match = refl
topic_of-message_type ready_state = refl
topic_of-message_type player_join = refl
topic_of-message_type player_leave = refl
topic_of-message_type fixture_offers = refl
topic_of-message_type set_fixture_name = refl
topic_of-message_type get_fixtures = refl
topic_of-message_type delete_fixture = refl
topic_of-message_type get_fixture_states = refl
topic_of-message_type set_fixtures_enabled = refl
topic_of-message_type set_fixtures_locating = refl
topic_of-message_type light_switch_hi_lo_state = refl
topic_of-message_type light_switch_offers = refl
topic_of-message_type update_light_switch = refl
topic_of-message_type delete_light_switch = refl

-- No two topics have the same message type.
message_type-injective : (s t : Topic) → message_type s ≡ message_type t → s ≡ t
message_type-injective s t e =
    let p : some s ≡ some t =
      sym (topic_of-message_type s) ∙ ap topic_of e ∙ topic_of-message_type t in
    cc

-- How the contents of each topic are written and read as JSON.
abbrev pub Encode : Type 0
Encode = (topic : Topic) → Payload topic → String

abbrev pub Unmarshal : Type 0
Unmarshal = (topic : Topic) → String → Option (Payload topic)

-- What the newsletter of a topic reads of a raw message.
pub reader : Unmarshal → Unmarshal
reader unmarshal get_devices = λ raw. some tt
reader unmarshal abort_match = λ raw. some tt
reader unmarshal get_fixtures = λ raw. some tt
reader unmarshal get_fixture_states = λ raw. some tt
reader unmarshal topic = unmarshal topic

-- All topics are subscribed alike.
pub subscribe_topic_lem :
    (u : Unmarshal) (t : Topic) (m : SubscriptionManager)
    → subscribe_topic u t m ≡ subscribe_decoded (message_type t) (reader u t) m
unfolding subscribe_topic subscribe_notify_for_message_type reader
    subscribe_message_type_set_device_name subscribe_message_type_delete_device
    subscribe_message_type_get_devices subscribe_message_type_role_assignments
    subscribe_message_type_abort_match subscribe_message_type_ready_state
    subscribe_message_type_player_join subscribe_message_type_player_leave
    subscribe_message_type_fixture_offers subscribe_message_type_set_fixture_name
    subscribe_message_type_get_fixtures subscribe_message_type_delete_fixture
    subscribe_message_type_get_fixture_states subscribe_message_type_set_fixtures_enabled
    subscribe_message_type_set_fixtures_locating subscribe_message_type_light_switch_hi_lo_state
    subscribe_message_type_light_switch_offers subscribe_message_type_update_light_switch
    subscribe_message_type_delete_light_switch
subscribe_topic_lem u set_device_name m = refl
subscribe_topic_lem u delete_device m = refl
subscribe_topic_lem u get_devices m = refl
subscribe_topic_lem u role_assignments m = refl
subscribe_topic_lem u abort_match m = refl
subscribe_topic_lem u ready_state m = refl
subscribe_topic_lem u player_join m = refl
subscribe_topic_lem u player_leave m = refl
subscribe_topic_lem u fixture_offers m = refl
subscribe_topic_lem u set_fixture_name m = refl
subscribe_topic_lem u get_fixtures m = refl
subscribe_topic_lem u delete_fixture m = refl
subscribe_topic_lem u get_fixture_states m = refl
subscribe_topic_lem u set_fixtures_enabled m = refl
subscribe_topic_lem u set_fixtures_locating m = refl
subscribe_topic_lem u light_switch_hi_lo_state m = refl
subscribe_topic_lem u light_switch_offers m = refl
subscribe_topic_lem u update_light_switch m = refl
subscribe_topic_lem u delete_light_switch m = refl

reader-encode :
    (encode : Encode) (u : Unmarshal) (t : Topic)
    → ((p : Payload t) → u t (encode t p) ≡ some p)
    → (p : Payload t) → reader u t (encode t p) ≡ some p
unfolding reader
reader-encode encode u set_device_name law p = law p
reader-encode encode u delete_device law p = law p
reader-encode encode u get_devices law p = refl
reader-encode encode u role_assignments law p = law p
reader-encode encode u abort_match law p = refl
reader-encode encode u ready_state law p = law p
reader-encode encode u player_join law p = law p
reader-encode encode u player_leave law p = law p
reader-encode encode u fixture_offers law p = law p
reader-encode encode u set_fixture_name law p = law p
reader-encode encode u get_fixtures law p = refl
reader-encode encode u delete_fixture law p = law p
reader-encode encode u get_fixture_states law p = refl
reader-encode encode u set_fixtures_enabled law p = law p
reader-encode encode u set_fixtures_locating law p = law p
reader-encode encode u light_switch_hi_lo_state law p = law p
reader-encode encode u light_switch_offers law p = law p
reader-encode encode u update_light_switch law p = law p
reader-encode encode u delete_light_switch law p = law p

-- A message that a device sends to an actor: one of the topic `t`, or one of another.
pub data Letter (t : Topic) : Type 0 where
  own : Payload t → Letter t
  foreign : (other : Topic) → other ≢ t → Payload other → Letter t

abbrev pub sealed : Encode → (t : Topic) → Letter t → Message
sealed encode t (own p) = record { message_type = message_type t; content = encode t p }
sealed encode t (foreign other _ p) = record {
  message_type = message_type other;
  content = encode other p;
}

-- The letters of the topic.
abbrev pub own_payloads : (t : Topic) → List (Letter t) → List (Payload t)
own_payloads t [] = []
own_payloads t (own p ∷ letters) = p ∷ own_payloads t letters
own_payloads t (foreign other _ p ∷ letters) = own_payloads t letters

-- The subscription is filed with the manager.
abbrev pub Filed : Subscription → SubscriptionManager → Type 0
Filed sub m = lookup sub.token m.by_token ≡ some sub

times-handle_message :
    (sub : Subscription) (m : SubscriptionManager) (msg : Message)
    → Coherent m
    → Filed sub m
    → times sub.token (handle_message (λ s. true) msg m)
      ≡ (if sub.message_type == msg.message_type then 1 else 0)
times-handle_message sub m msg h filed =
    handle_message_once (λ s. true) msg m sub.token h (λ s e. refl)
    ∙ ap (expected msg.message_type) filed

pub read-turns :
    (encode : Encode) (u : Unmarshal) (t : Topic)
    → ((p : Payload t) → u t (encode t p) ≡ some p)
    → (sub : Subscription) (m : SubscriptionManager) → sub.message_type ≡ message_type t
    → Coherent m
    → Filed sub m
    → (letters : List (Letter t))
    → read (reader u t) (turns sub m (map (sealed encode t) letters))
      ≡ record { received = own_payloads t letters; parse_errors = 0; closed = false }
unfolding read decoded_or_logged
read-turns encode u t law sub m e h filed [] = refl
read-turns encode u t law sub m e h filed (own p ∷ letters) =
    let once : times sub.token (handle_message (λ s. true) (sealed encode t (own p)) m) ≡ 1 =
      times-handle_message sub m (sealed encode t (own p)) h filed
      ∙ ground (arith, eq_iff sub.message_type (message_type t)) in
    rw (once, reader-encode encode u t law p, read-turns encode u t law sub m e h filed letters)
read-turns encode u t law sub m e h filed (foreign other ne p ∷ letters) =
    let never : times sub.token
          (handle_message (λ s. true) (sealed encode t (foreign other ne p)) m)
        ≡ 0 =
      times-handle_message sub m (sealed encode t (foreign other ne p)) h filed
      ∙ ground
          (arith, eq_iff sub.message_type (message_type other), message_type-injective other t) in
    rw never (read-turns encode u t law sub m e h filed letters)
