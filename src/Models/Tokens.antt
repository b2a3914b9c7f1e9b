-- ===== src/Models/Tokens.antt =====
-- app/modules/auth/models.py.
use ats_project_management_b.Prelude.{ℕ, String, Bool, ◌||◌, Option, ◌==◌, string_eq, ℕ_eq}

pub record RefreshToken : Type 0 where
  pub id : ℕ
  pub created_at : ℕ
  pub token_hash : String
  pub user_id : ℕ
  pub family_id : ℕ
  pub expires_at : ℕ
  pub revoked : Bool
  pub replaced_by_id : Option ℕ

-- The primary key, and the unique hash.
abbrev pub tokens_clash : RefreshToken → RefreshToken → Bool
tokens_clash a b = a.id == b.id || a.token_hash == b.token_hash
