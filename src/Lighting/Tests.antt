-- ===== src/Lighting/Tests.antt =====
-- A light switch and two fixtures at a concrete input (lightswitch/light_switch_hi_lo.go).
use masc_server.Prelude.{Bool, true, false, none, some, List, [], ◌∷◌, ◌≡◌, string_key}
use masc_server.Acting.Actors.{new_actor}
use masc_server.Lighting.{BasicFixture, Lights, LightSwitchHiLo, handle_all}
use masc_server.Lighting.Toggle.{enabled, flips, rises, occurrences, handle_all-flips}

abbrev lamp : BasicFixture
lamp = record {
  provider_id = "out-0";
  actor = some "a";
  is_enabled = false;
  is_locating = false;
  notified = none;
}

abbrev lights : Lights
lights = record {
  fixtures = ("lamp", lamp) ∷ ("spot", lamp) ∷ [];
  stage = record { actor = λ id. new_actor id "fixture-provider"; listed = λ id. true };
}

abbrev switch : LightSwitchHiLo
switch = record { assignments = "spot" ∷ "lamp" ∷ []; is_high = false }

abbrev signals : List Bool
signals = true ∷ true ∷ false ∷ true ∷ false ∷ true ∷ []

handle_all-flips_example :
    enabled "lamp" (handle_all signals (switch, lights)).1
    ≡ flips
        (rises (occurrences "lamp" switch.assignments) switch.is_high signals)
        (enabled "lamp" lights)
handle_all-flips_example = handle_all-flips "lamp" signals switch lights
