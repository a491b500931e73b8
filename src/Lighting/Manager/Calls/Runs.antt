-- ===== src/Lighting/Manager/Calls/Runs.antt =====
-- Runs of the manager of the fixtures (lighting/manager.go): the calls in the order in which they
-- get its lock.
use masc_server.Prelude.{ℕ, String, ◌≡◌, Option, List, [], ◌∷◌, nat_key}
use masc_server.Errors.Results.{ok}
use masc_server.Messages.Incoming.{MessageFixtureOffers}
use masc_server.Casting.{Stage}
use masc_server.Lighting.Manager.{
  ManagerStore, StoredManager, new_stored_manager, load_known_fixtures,
}
use masc_server.Lighting.Manager.Store.{Entry, StoreLaws, Mirrors}
use masc_server.Lighting.Manager.Load.{load_known_fixtures-Mirrors}
use masc_server.Lighting.Manager.Calls.{
  accept_fixture_provider, say_goodbye_to_fixture_provider, set_fixture_name, delete_fixture,
}
use masc_server.Lighting.Manager.Calls.Mirror.{
  Good, accept_fixture_provider-Good, say_goodbye_to_fixture_provider-Good, set_fixture_name-Good,
  delete_fixture-Good,
}

pub data Call : Type 0 where
  accepts : ℕ → (String → String) → String → Option MessageFixtureOffers → Call
  leaves : String → Call
  names : ℕ → Option String → Call
  deletes : ℕ → Call

module _ {S : Type 0} (store : ManagerStore S) where
  pub step : Call → StoredManager S → StoredManager S
  step (accepts now random actor offers) m =
      (accept_fixture_provider store now random actor offers m).0
  step (leaves actor) m = (say_goodbye_to_fixture_provider store actor m).0
  step (names id name) m = (set_fixture_name store id name m).0
  step (deletes id) m = (delete_fixture store id m).0

  pub run : List Call → StoredManager S → StoredManager S
  run [] m = m
  run (c ∷ cs) m = run cs (step c m)

  module _ (find : ℕ → S → Option Entry) (laws : StoreLaws store find) where
    step-Good : (c : Call) (m : StoredManager S) → Good store find m → Good store find (step c m)
    unfolding step
    step-Good (accepts now random actor offers) m h =
        accept_fixture_provider-Good store find laws now random actor offers m h
    step-Good (leaves actor) m h = say_goodbye_to_fixture_provider-Good store find laws actor m h
    step-Good (names id name) m h = set_fixture_name-Good store find laws id name m h
    step-Good (deletes id) m h = delete_fixture-Good store find laws id m h

    run-Good :
        (cs : List Call) (m : StoredManager S) → Good store find m → Good store find (run cs m)
    unfolding run
    run-Good [] m h = h
    run-Good (c ∷ cs) m h = run-Good cs (step c m) (step-Good c m h)

    -- Where the store keeps its laws and a new manager has loaded its fixtures, the manager implements
    -- the store: after any calls, failed ones included, it holds exactly the fixtures that the store
    -- finds, under their ids, with the device, provider id and name that are stored, and with the type
    -- that is stored or, where it is not supported, the basic one.
    pub run-Mirrors :
        (now : ℕ) (s : S) (st : Stage)
        → (load_known_fixtures store now (new_stored_manager store s st)).1 ≡ ok tt
        → (cs : List Call)
        → Mirrors find
            (run cs (load_known_fixtures store now (new_stored_manager store s st)).0).store
            (run cs (load_known_fixtures store now (new_stored_manager store s st)).0).fixtures
    run-Mirrors now s st h cs =
        run-Good cs (load_known_fixtures store now (new_stored_manager store s st)).0
          (load_known_fixtures-Mirrors store find laws now s st h)
