-- ===== src/Shared/Claims.antt =====
-- backend/shared/src/models/auth.rs: the claims of a JWT. A `Uuid` is its 128-bit number.
use codenexus.Prelude.{ℕ, ℤ, Option, Text}

pub record Claims : Type 0 where
  pub sub : ℕ
  pub email : Text
  pub role : Text
  pub school_id : ℤ
  pub campus_id : Option ℤ
  pub grade_id : Option ℤ
  pub iat : ℤ
  pub exp : ℤ
  pub jti : ℕ
  pub token_type : Text
