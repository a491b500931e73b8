-- ===== src/Games/TeamDeathmatch/Config.antt =====
-- The configuration of a team deathmatch, `configFromRequest` of
-- games/mode_team_deathmatch/mode_team_deathmatch.go. The floats are a parameter.
use masc_server.Prelude.{
  ℕ, zero, suc, ◌≤◌, String, Bool, true, false, Option, none, some, if◌then◌else◌, ◌≡◌, ◌⊎◌, inl,
  inr, refl, arith,
}
use masc_server.Errors.{GoError}
use masc_server.Errors.Generators.{new_invalid_config_request_error}

-- Go's `int`, of which only the sign and the value of a positive one count here.
pub data ℤ : Type 0 where
  pos : ℕ → ℤ
  negsuc : ℕ → ℤ

-- What the code uses of `float64`: the tests `< 0` and `> 1`, and the constant 0.4.
pub record Floats (F : Type 0) : Type 0 where
  pub below_zero : F → Bool
  pub above_one : F → Bool
  pub two_fifths : F

-- `ConfigRequest`; `none` is an invalid value.
pub record ConfigRequest (F : Type 0) : Type 0 where
  pub team_count : Option ℤ
  pub lives_per_player : Option ℤ
  pub respawn_team_size : Option F

-- `Config`
pub record Config (F : Type 0) : Type 0 where
  pub team_count : ℕ
  pub lives_per_player : ℕ
  pub respawn_team_size : F

-- The same steps for the number of teams and for the lives of a player.
count_from_request : String → ℕ → Option ℤ → ℕ ⊎ GoError
count_from_request message default none = inl default
count_from_request message default (some (pos zero)) =
    inr (new_invalid_config_request_error message)
count_from_request message default (some (pos (suc n))) = inl (suc n)
count_from_request message default (some (negsuc n)) =
    inr (new_invalid_config_request_error message)

module _ {F : Type 0} (floats : Floats F) where
  size_from_request : Option F → F ⊎ GoError
  size_from_request none = inl floats.two_fifths
  size_from_request (some x) =
      if floats.below_zero x
      then inr (new_invalid_config_request_error "respawn team size must be greater or equal 0")
      else if floats.above_one x
      then inr (new_invalid_config_request_error "respawn team size must be less or equal 1")
      else inl x

  built : ℕ ⊎ GoError → ℕ ⊎ GoError → F ⊎ GoError → Config F ⊎ GoError
  built (inr e) lives size = inr e
  built (inl n) (inr e) size = inr e
  built (inl n) (inl k) (inr e) = inr e
  built (inl n) (inl k) (inl x) =
      inl (record { team_count = n; lives_per_player = k; respawn_team_size = x })

  -- `configFromRequest`, without the warnings for missing values.
  unfoldable pub config_from_request : ConfigRequest F → Config F ⊎ GoError
  unfolding built count_from_request size_from_request
  config_from_request r =
      built (count_from_request "team count must be greater 0" 2 r.team_count)
        (count_from_request "lives per player must be greater 0" 3 r.lives_per_player)
        (size_from_request r.respawn_team_size)

-- A count that is requested and not positive.
abbrev pub OutOfRange : Option ℤ → Type 0
OutOfRange none = ⊥
OutOfRange (some (pos zero)) = Unit
OutOfRange (some (pos (suc n))) = ⊥
OutOfRange (some (negsuc n)) = Unit

-- A count that is requested is kept, and the default stands for one that is missing.
abbrev pub Chosen : ℕ → Option ℤ → ℕ → Type 0
Chosen default none n = n ≡ default
Chosen default (some z) n = z ≡ pos n

abbrev CountAnswers : ℕ → Option ℤ → ℕ ⊎ GoError → Type 0
CountAnswers default o (inl n) = (1 ≤ n) × Chosen default o n
CountAnswers default o (inr e) = OutOfRange o

count_from_request-CountAnswers :
    (message : String) (default : ℕ) (o : Option ℤ)
    → 1 ≤ default
    → CountAnswers default o (count_from_request message default o)
unfolding count_from_request
count_from_request-CountAnswers message default none h = (h, refl)
count_from_request-CountAnswers message default (some (pos zero)) h = tt
count_from_request-CountAnswers message default (some (pos (suc n))) h = (omega arith, refl)
count_from_request-CountAnswers message default (some (negsuc n)) h = tt

module _ {F : Type 0} (floats : Floats F) where
  abbrev InRange : F → Type 0
  InRange x = (floats.below_zero x ≡ false) × (floats.above_one x ≡ false)

  abbrev ChosenSize : Option F → F → Type 0
  ChosenSize none x = x ≡ floats.two_fifths
  ChosenSize (some y) x = (y ≡ x) × InRange x

  abbrev SizeOutOfRange : Option F → Type 0
  SizeOutOfRange none = ⊥
  SizeOutOfRange (some x) = (floats.below_zero x ≡ true) ⊎ (floats.above_one x ≡ true)

  abbrev SizeAnswers : Option F → F ⊎ GoError → Type 0
  SizeAnswers o (inl x) = ChosenSize o x
  SizeAnswers o (inr e) = SizeOutOfRange o

  size_from_request-SizeAnswers : (o : Option F) → SizeAnswers o (size_from_request floats o)
  unfolding size_from_request
  size_from_request-SizeAnswers none = refl
  size_from_request-SizeAnswers (some x) = ground arith

  -- A configuration has at least one team and at least one life, and what was requested or the
  -- defaults; an error means that something requested is out of its range.
  abbrev pub Answers : ConfigRequest F → Config F ⊎ GoError → Type 0
  Answers r (inl c) =
      (1 ≤ c.team_count)
      × (1 ≤ c.lives_per_player)
      × Chosen 2 r.team_count c.team_count
      × Chosen 3 r.lives_per_player c.lives_per_player
      × ChosenSize r.respawn_team_size c.respawn_team_size
  Answers r (inr e) =
      OutOfRange r.team_count ⊎ (OutOfRange r.lives_per_player ⊎ SizeOutOfRange r.respawn_team_size)

  built-Answers :
      (r : ConfigRequest F) (n k : ℕ ⊎ GoError) (x : F ⊎ GoError)
      → CountAnswers 2 r.team_count n
      → CountAnswers 3 r.lives_per_player k
      → SizeAnswers r.respawn_team_size x
      → Answers r (built floats n k x)
  unfolding built
  built-Answers r (inr e) k x p q s = inl p
  built-Answers r (inl n) (inr e) x p q s = inr (inl q)
  built-Answers r (inl n) (inl k) (inr e) p q s = inr (inr s)
  built-Answers r (inl n) (inl k) (inl x) p q s = (p.0, q.0, p.1, q.1, s)

-- Where a configuration is built, it has at least one team and one life per player, the counts and
-- the respawn size are those requested or the defaults 2, 3 and 0.4, and a requested size is neither
-- below 0 nor above 1. Where an error comes, a requested count is not positive or the requested
-- size is below 0 or above 1.
pub config_from_request_lem :
    {F : Type 0} (floats : Floats F) (r : ConfigRequest F)
    → Answers floats r (config_from_request floats r)
unfolding config_from_request
config_from_request_lem floats r =
    built-Answers floats r _ _ _
      (count_from_request-CountAnswers "team count must be greater 0" 2 r.team_count (omega arith))
      (count_from_request-CountAnswers "lives per player must be greater 0" 3 r.lives_per_player
        (omega arith))
      (size_from_request-SizeAnswers floats r.respawn_team_size)
