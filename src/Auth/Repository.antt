-- ===== src/Auth/Repository.antt =====
-- app/modules/auth/repository.py.
use ats_project_management_b.Prelude.{
  Bool, Option, String, false, if◌then◌else◌, ltb, not, string_eq, true, ℕ, ℕ_eq, ◌&&◌, ◌==◌,
}
use ats_project_management_b.Core.Repository.{find, save, token_model, update_where}
use ats_project_management_b.Core.Session.{Exec, draw, pure, ◌>>=◌}
use ats_project_management_b.Models.{RefreshToken}
use ats_project_management_b.Platform.{Platform}

abbrev pub mark_revoked : RefreshToken → RefreshToken
mark_revoked t = record t { revoked = true }

-- The WHERE clauses of the two bulk revocations.
abbrev pub open_in_family : ℕ → RefreshToken → Bool
open_in_family family_id t = t.family_id == family_id && not t.revoked

abbrev pub open_of_user : ℕ → RefreshToken → Bool
open_of_user user_id t = t.user_id == user_id && not t.revoked

module _ ⦃x : Platform⦄ where
  unfoldable pub get_by_hash : String → Exec (Option RefreshToken)
  get_by_hash token_hash = find token_model (λ t. t.token_hash == token_hash)

  unfoldable pub revoke : RefreshToken → Option ℕ → Exec (Unit {0})
  revoke token replaced_by =
      save token_model token (λ t. record t { revoked = true; replaced_by_id = replaced_by })

  unfoldable pub revoke_family : ℕ → Exec (Unit {0})
  revoke_family family_id = update_where token_model (open_in_family family_id) mark_revoked

  unfoldable pub revoke_all_for_user : ℕ → Exec (Unit {0})
  revoke_all_for_user user_id = update_where token_model (open_of_user user_id) mark_revoked

  -- The clock is read only for a token that is not revoked. Times carry no zone here.
  unfoldable pub is_valid : RefreshToken → Exec Bool
  is_valid token =
      if token.revoked
      then pure false
      else (draw x.utcnow >>= λ now. pure (ltb now token.expires_at))
