-- ===== src/Base/Results.antt =====
-- `Result` of the program: a value or an error, and a third case for a panic (`expect`, `unwrap`).
pub data Reply {ℓ} (E A : Type ℓ) : Type ℓ where
  ok : A → Reply E A
  err : E → Reply E A
  panic : Reply E A
