-- ===== src/Examples/Fresh.antt =====
-- Tests and examples of a fresh database.
use distributed_rate_limiter.Prelude.{ℕ, zero, suc, String, ◌∷◌}

-- Texts of different lengths, in place of random identifiers.
abbrev drawn : ℕ → String
drawn zero = ""
drawn (suc n) = String.◌∷◌ "x" (drawn n)
