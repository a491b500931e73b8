-- ===== src/Errors/Results.antt =====
-- What an operation of several of the server's parts returns beside the state that it leaves.
use masc_server.Prelude.{◌≡◌, ap}
use masc_server.Errors.{GoError}

-- A value, or an error. An operation that returns no value returns `tt` where its error is nil.
pub data Result {ℓ} (A : Type ℓ) : Type ℓ where
  ok : A → Result A
  failed : GoError → Result A

abbrev pub Done : Type 0
Done = Result Unit

pub ok-injective {ℓ} : {A : Type ℓ} (a b : A) → ok a ≡ ok b → a ≡ b
ok-injective a b e = ap (λ r. elim r [ ok x ↦ x | failed x ↦ a ]) e
