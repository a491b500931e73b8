-- ===== src/Lib.antt =====
-- A model of masc-server, the server of a game that devices (phones, light switches, fixtures) play
-- over a network, and the theorems on it.
--
-- The parts and how they interact. Devices connect as clients of a hub, which passes them on to the
-- gatekeeper. It knows a device by its id and has it welcomed by the agency, which creates one
-- actor for each role that the device offers. Other parts hire an actor, send messages to it and
-- subscribe to the types of messages that it receives. A casting asks one actor, the jury, to
-- assign actors to requested roles and hires the winners. A match of the team deathmatch uses a
-- casting for its bases and monitors, opens an office where players join, and fills its teams from
-- the player management. A light switch toggles the fixtures that are assigned to it. All parts
-- return the errors of the package errors.
--
-- Which file models which part (paths from the repository's root):
--   Errors            errors/codes.go and errors/errors.go: `Error`, `Cast`, `Wrap`, `BlameUser`, `Log`
--   Errors/Generators errors/generators.go
--   Messages          the error message for clients (messages/messages.go) and what the others send,
--                     with Incoming (what newsletters read; the files of messages/)
--   Acting/Roles      the role types and `getRole` of acting/acting.go
--   Acting/Subscriptions  `SubscriptionManager` of acting/subscriptions.go
--   Acting/Newsletters  the newsletters of acting/subscriptions.go, with Subscribing (the functions for
--                     one message type each)
--   Acting/Actors     `netActor` of acting/acting.go, with the goroutine that awaits a contract's end
--   Acting/Agency     `netActorDevice` and `ProtectedAgency` of acting/acting.go
--   Casting           casting/casting.go, with Assign (`setWinners`, `assureWinnersSatisfyRequests`),
--                     Hire (`hireWinners`) and Run (`PerformAndHire`)
--   Games/Players     `PlayerManagement` of games/player_management.go, with Office
--                     (`handlePlayerJoins`)
--   Games/Ready       `readyAwaiter` and `RequestAndAwaitReady` of games/ready.go
--   Games/TeamDeathmatch  games/mode_team_deathmatch/mode_team_deathmatch.go, with Config
--                     (`configFromRequest`) and Roles (`performRoleAssignment`)
--   Gatekeeping       gatekeeping/net.go, with Clients (`AcceptClient`, `SayGoodbyeToClient`,
--                     `GetDevices`)
--   Lighting          lighting/fixture_basic.go, `ToggleFixtureEnabledByID` of lighting/manager.go, and
--                     lightswitch/light_switch_hi_lo.go
--   Lighting/Fixtures   lighting/fixture.go and lighting/fixture_dimmer.go
--   Lighting/Manager  lighting/manager.go: loading and adding of fixtures, with Calls (acceptance and
--                     goodbye of providers, renaming, deleting) and Listing
--   LightSwitches     lightswitch/manager.go and lightswitch/lightswitch.go, with Calls and Listing
--   Hub               ws/hub.go
-- The other files hold proofs, and the files called Tests runs at concrete inputs. Prelude holds
-- what all share: lists measured by native numbers, and Go's maps as association lists.
--
-- State is passed explicitly: an operation takes the record of its state and returns the new one
-- with the result. A nil map or manager is `none`, and so is the result of a call that panics. A
-- method that holds a lock alone is one step. Where a method holds one for reading only, it is one
-- step too, except for updates of light switches, which are two and overlap; of `AddRequest` two
-- calls are taken not to overlap, nor is anything to come between the parts of accepting a
-- provider. `fire` cancels the subscriptions in the step in which it ends the contract, though it
-- has let go of the lock by then. Of `RequestAndAwaitReady` the wait is modelled, and not that the
-- call then waits for its goroutines; the receivers of its updates take each. A goroutine that
-- waits is a count or an entry in the state, and a step of its own when it runs. What comes from
-- outside (the replies of the jury, the joins and leaves of players) is a list, over which the
-- loops are structural recursion, so that no fuel is needed; a list that ends before the loop does
-- gives the outcome `waiting`. Errors keep their code, their cause and their details; a message
-- loses the numbers that `fmt` puts into it where they stand in the details too.
--
-- The stores are interfaces: a record of operations on a state of any type, and a record of laws
-- that says what they do, in terms of a function that finds an entry. The managers of the fixtures
-- and of the light switches and the gatekeeper are proved against the laws, and the files called
-- Tests (with Lighting/Manager/Memory) fill them with a store in memory. What the gatekeeper
-- protects is such an interface too.
--
-- Parameters: the decoding of JSON, the names that are drawn for fixtures and light switches, the
-- ids that `uuid.New` draws, what `fmt` prints for a number, the floats of a configuration, what
-- the database driver says of an error, and what the provider of players answers.
--
-- Not modelled: the sockets (the rest of ws) and the HTTP server (web_server), the statements of
-- the stores, the MQTT client, logging, and start-up (app), which are I/O and glue; of the parts
-- with logic of their own, mqttbridge, device_management, the broadcaster of lighting and the
-- handlers of lighting and lightswitch, which read newsletters and call the managers. In
-- AcceptFixtureProvider and AcceptLightSwitchProvider other calls may come between the two locked
-- parts; here none does.
pub mod Prelude
pub mod Errors
pub mod Messages
pub mod Acting
pub mod Casting
pub mod Games
pub mod Lighting
pub mod Gatekeeping
pub mod LightSwitches
pub mod Hub
