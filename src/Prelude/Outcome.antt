-- ===== src/Prelude/Outcome.antt =====
-- Python exceptions as values.

-- The exceptions that the modelled code raises or lets through: of dnspython (`DNSException`,
-- `TooBig`), and of Python for `None`, an index, a value, a number that does not fit its bytes and a
-- connection that is lost.
pub data Exception : Type 0 where
  dns_exception too_big value_error index_error attribute_error : Exception
  overflow_error connection_error : Exception

pub data Result {ℓ} (A : Type ℓ) : Type ℓ where
  ok : A → Result A
  raise : Exception → Result A

infixl 5 ◌>>=◌ ◌>>◌
abbrev pub ◌>>=◌ {ℓ κ} : {A : Type ℓ} {B : Type κ} → Result A → (A → Result B) → Result B
ok a >>= f = f a
raise e >>= f = raise e

abbrev pub ◌>>◌ {ℓ} : {B : Type ℓ} → Result (Unit {0}) → Result B → Result B
m >> k = m >>= λ _. k
