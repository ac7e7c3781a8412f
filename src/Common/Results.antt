-- ===== src/Common/Results.antt =====
-- A call that returns a value or raises, and calls in sequence.

pub data Outcome {ℓ} (E : Type 0) (A : Type ℓ) : Type ℓ where
  ok : A → Outcome E A
  raise : E → Outcome E A

infixl 5 ◌>>=◌
-- The second call runs on what the first returns, or what the first raises stays.
abbrev pub ◌>>=◌ {ℓ} : {E : Type 0} {A B : Type ℓ} → Outcome E A → (A → Outcome E B) → Outcome E B
raise e >>= next = raise e
ok a >>= next = next a

infixl 5 ◌>>◌
abbrev pub ◌>>◌ : {E A : Type 0} → Outcome E (Unit {0}) → Outcome E A → Outcome E A
raise e >> call = raise e
ok u >> call = call
