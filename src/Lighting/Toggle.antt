-- ===== src/Lighting/Toggle.antt =====
-- What the messages of a light switch do to a fixture (lightswitch/light_switch_hi_lo.go and
-- lighting/manager.go).
use masc_server.Prelude.{
  ℕ, zero, suc, ◌+◌, String, Bool, true, false, not, ◌&&◌, Option, none, some, List, [], ◌∷◌,
  if◌then◌else◌, lookup, lookup-insert, string_key, ◌==◌, eq_iff, arith, ◌≡◌, refl, ap, sym, ◌∙◌,
}
use masc_server.Lighting.{
  BasicFixture, notify, toggle_enabled, send_state_update, apply, Lights, toggled,
  toggle_fixture_enabled_by_id, LightSwitchHiLo, toggle_each, handle_hi_lo, handle_all,
}

-- Whether a fixture is enabled; `none` where there is no such fixture.
abbrev pub enabled_in : Option BasicFixture → Option Bool
enabled_in none = none
enabled_in (some f) = some f.is_enabled

abbrev pub enabled : String → Lights → Option Bool
enabled id l = enabled_in (lookup id l.fixtures)

abbrev flip : Option Bool → Option Bool
flip none = none
flip (some b) = some (not b)

-- As many changes of the state as the number says.
abbrev pub flips : ℕ → Option Bool → Option Bool
flips zero o = o
flips (suc n) o = flips n (flip o)

-- How often a fixture is assigned.
abbrev pub occurrences : String → List String → ℕ
occurrences id [] = 0
occurrences id (j ∷ ids) = if j == id then suc (occurrences id ids) else occurrences id ids

-- How many toggles the messages ask for: `n` at each rise from low to high.
abbrev pub rises : ℕ → Bool → List Bool → ℕ
rises n is_high [] = 0
rises n is_high (m ∷ ms) = (if not is_high && m then n else 0) + rises n m ms

flips_add : (m n : ℕ) (o : Option Bool) → flips (m + n) o ≡ flips n (flips m o)
flips_add zero n o = let e : zero + n ≡ n = omega arith in ap (λ (k : ℕ). flips k o) e
flips_add (suc m) n o =
    let e : suc m + n ≡ suc (m + n) = omega arith in
    ap (λ (k : ℕ). flips k o) e ∙ flips_add m n (flip o)

toggled-enabled :
    (o : Option BasicFixture) (id j : String) (l : Lights)
    → lookup id l.fixtures ≡ o
    → enabled j (toggled o id l).0 ≡ (if id == j then flip (enabled j l) else enabled j l)
unfolding toggled apply send_state_update toggle_enabled
toggled-enabled none id j l e = ground (arith, eq_iff id j)
toggled-enabled (some f) id j l e = ground (
  arith,
  eq_iff id j,
  lookup-insert id j (record (toggle_enabled f) { notified = notify f.notified }) l.fixtures,
)

toggle_each-enabled :
    (j : String) (ids : List String) (l : Lights)
    → enabled j (toggle_each ids l) ≡ flips (occurrences j ids) (enabled j l)
unfolding toggle_each toggle_fixture_enabled_by_id
toggle_each-enabled j [] l = refl
toggle_each-enabled j (id ∷ ids) l = ground (
  arith,
  toggle_each-enabled j ids (toggle_fixture_enabled_by_id id l).0,
  toggled-enabled (lookup id l.fixtures) id j l refl,
)

once-enabled :
    (b : Bool) (j : String) (ids : List String) (l : Lights)
    → enabled j (if b then toggle_each ids l else l)
      ≡ flips (if b then occurrences j ids else 0) (enabled j l)
once-enabled true j ids l = toggle_each-enabled j ids l
once-enabled false j ids l = refl

-- After any messages to a light switch, a fixture is enabled or not by how it was before and by the
-- number of rises of the switch from low to high: it has changed once at each rise for each time that
-- it is assigned to the switch. No fixture appears or is lost.
pub handle_all-flips :
    (j : String) (ms : List Bool) (ls : LightSwitchHiLo) (l : Lights)
    → enabled j (handle_all ms (ls, l)).1
      ≡ flips (rises (occurrences j ls.assignments) ls.is_high ms) (enabled j l)
unfolding handle_all handle_hi_lo
handle_all-flips j [] ls l = refl
handle_all-flips j (m ∷ ms) ls l =
    let n = occurrences j ls.assignments in
    let rise = not ls.is_high && m in
    handle_all-flips j ms (record ls { is_high = m })
      (if rise then toggle_each ls.assignments l else l)
    ∙ ap (flips (rises n m ms)) (once-enabled rise j ls.assignments l)
    ∙ sym (flips_add (if rise then n else 0) (rises n m ms) (enabled j l))
