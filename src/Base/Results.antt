-- ===== src/Base/Results.antt =====
-- Results of fallible Rust code: a value, an error of the caller's type, or a panic.
pub data Result {ℓ κ} (E : Type κ) (A : Type ℓ) : Type (ℓ ⊔ κ) where
  panicked : Result E A
  ok : A → Result E A
  err : E → Result E A
