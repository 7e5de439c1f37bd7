-- ===== src/Retrieval/Floats.antt =====
-- Floating-point numbers: an abstract type with the operations that hybrid_search.py uses. Nothing is
-- assumed of them, so what is proved holds for rounded arithmetic, too.
use aether_ai_workspace.Base.{ℕ, Bool}

pub record Floats : Type 1 where
  pub Float : Type 0
  pub zero_float : Float
  pub one_float : Float
  pub half : Float
  pub negative_infinity : Float
  pub of_int : ℕ → Float
  pub plus : Float → Float → Float
  pub minus : Float → Float → Float
  pub times : Float → Float → Float
  pub over : Float → Float → Float
  pub sqrt : Float → Float
  pub less : Float → Float → Bool
  pub same : Float → Float → Bool
