-- ===== src/Result.antt =====
-- src/lib.rs: `HrResult`, with an error as its message.
use hr.Prelude.{Text}

pub data Result {ℓ} (A : Type ℓ) : Type ℓ where
  ok : A → Result A
  err : Text → Result A
