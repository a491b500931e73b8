-- ===== src/Acting/Actors/Rehire.antt =====
-- An actor that is hired again before the goroutine of its first contract has run.
use masc_server.Prelude.{String, true, false, some, ◌≡◌, arith, Option-cases, inl, inr}
use masc_server.Errors.{nil}
use masc_server.Acting.Actors.{Actor, hire, fire, wake, is_hired}

-- Firing a hired actor, whose contract has not been ended before, and hiring it again leaves the
-- goroutine of the first contract to be run. When it runs it fires the actor from its second
-- contract.
pub wake-hire-fire :
    (name : String) (a b c : Actor)
    → is_hired a ≡ true
    → a.contract.cancelled ≡ false
    → fire a ≡ some b
    → hire name b ≡ (c, nil)
    → (is_hired c ≡ true) × ((d : Actor) × (wake c ≡ some d) × (is_hired d ≡ false))
unfolding fire hire wake is_hired
wake-hire-fire name a b c v n e f = elim (Option-cases (wake c)) [
  | inl g ↦ absurd (ground arith)
  | inr (d, g) ↦ (ground arith, (d, g, ground arith))
]
