-- ===== src/Hub/Tests.antt =====
-- Runs of the hub at concrete inputs (ws/hub.go).
use masc_server.Prelude.{
  ◌+◌, ◌≡◌, refl, List, [], ◌∷◌, passing, lookup, insert, delete, nat_key, arith,
}
use masc_server.Hub.{HubEvent, done, register, unregister, new_hub, run_hub}
use masc_server.Hub.Closing.{registers, closes, registered, before_done, run_hub-new_hub}

-- The first client goes twice, the second stays, and the third comes too late.
abbrev visits : List HubEvent
visits =
    register 1 ∷ register 2 ∷ unregister 1 ∷ unregister 3 ∷ unregister 1 ∷ done ∷ register 3 ∷ []

goes : registered 1 (run_hub visits new_hub) ≡ 0
unfolding run_hub new_hub lookup insert delete
goes = refl

run_hub-new_hub_example :
    passing (closes 1) (run_hub visits new_hub).started + registered 1 (run_hub visits new_hub)
    ≡ passing (registers 1) (before_done visits)
run_hub-new_hub_example = run_hub-new_hub 1 visits (omega arith)
