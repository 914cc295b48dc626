-- ===== src/Base/Result.antt =====
-- A call that returns or raises.

pub data Error : Type 0 where
  type_error value_error key_error zero_division runtime_error not_implemented attribute_error
        index_error :
      Error

pub data Result {ℓ} (A : Type ℓ) : Type ℓ where
  ok : A → Result A
  raise : Error → Result A

infixl 5 ◌>>=◌
abbrev pub ◌>>=◌ {ℓ κ} : {A : Type ℓ} {B : Type κ} → Result A → (A → Result B) → Result B
ok a >>= f = f a
raise e >>= f = raise e
