-- ===== src/Bot.antt =====
-- packages/shared/src/poker/bot: the strength of a hand and the decision of a bot. The floating-point
-- numbers and what the code does with them are a parameter, and so are the random numbers.
pub mod Strength
pub mod Decision
pub mod Legal
use allinle.Prelude.{ℕ, Bool}
use allinle.Prelude.Int.{ℤ}

-- Numbers of the language: `over n d` is the literal of that fraction, `less` is `<`, and `round` is the
-- nearest integer of a finite number.
pub record Double {ℓ} (F : Type ℓ) : Type ℓ where
  pub of : ℕ → F
  pub over : ℕ → ℕ → F
  pub plus : F → F → F
  pub minus : F → F → F
  pub times : F → F → F
  pub divided : F → F → F
  pub greatest : F → F → F
  pub least : F → F → F
  pub less : F → F → Bool
  pub round : F → ℤ
