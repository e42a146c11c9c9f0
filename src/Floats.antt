-- ===== src/Floats.antt =====
-- The float arithmetic of the target, which the C implementation and libm supply: a parameter.
use trifecta_sdk.Common.{ℕ}

pub record Floats : Type 1 where
  pub Float : Type 0
  pub Double : Type 0
  -- The float, and the double, whose bits are these.
  pub float_of_bits : ℕ → Float
  pub double_of_bits : ℕ → Double
  -- The float nearest to a quotient: the literals of the source.
  pub literal : ℕ → ℕ → Float
  pub add : Float → Float → Float
  pub sub : Float → Float → Float
  pub mul : Float → Float → Float
  pub div : Float → Float → Float
  pub neg : Float → Float
  pub atan2f : Float → Float → Float
  pub asinf : Float → Float

-- `fs_vector3_t` and `fs_vector3_d_t`.
pub record Vector3 (A : Type 0) : Type 0 where
  pub x : A
  pub y : A
  pub z : A

-- `fs_quaternion_t`.
pub record Quaternion (A : Type 0) : Type 0 where
  pub w : A
  pub x : A
  pub y : A
  pub z : A
