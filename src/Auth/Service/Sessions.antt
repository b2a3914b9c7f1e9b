-- ===== src/Auth/Service/Sessions.antt =====
-- Signing in and out: what `login`, `logout` and `change_password` do to the stored tokens, and
-- that an access token leads back to its user.
use text.Mathlib.TextPositions.{eq_refl}
use ats_project_management_b.Prelude.{
  List, Option, String, [], any, ap, arith, change_where, count-change_where_undone, false, filter,
  filter-head_count, if◌then◌else◌, inl, inr, nat_eq_iff, none, refl, some, string_eq, true, ℕ,
  ℕ_eq, ◌&&◌, ◌++◌, ◌+◌, ◌==◌, ◌∙◌, ◌∷◌, ◌≡◌, ◌≤◌, ◌⊎◌,
}
use ats_project_management_b.Auth.Dependencies.{get_current_user}
use ats_project_management_b.Auth.Repository.{
  mark_revoked, open_of_user, revoke, revoke_all_for_user,
}
use ats_project_management_b.Auth.Service.{
  ChangePassword, bad_credentials, change_password, login, logout, logout_token, refresh,
  reuse_detected, verified,
}
use ats_project_management_b.Auth.Service.Refresh.{
  get_by_hash_lem, opened, reuse_commits, stored_token,
}
use ats_project_management_b.Auth.Service.Rotation.{
  issue_pair_lem, new_access, new_claims, new_row, new_token, only_active_lem, stored-change_where,
  stored_appended, stored_user,
}
use ats_project_management_b.Core.Config.{Settings}
use ats_project_management_b.Core.Exceptions.{Exception}
use ats_project_management_b.Core.Repository.{save, scalar_one_or_none, user_model}
use ats_project_management_b.Core.Repository.Laws.{find_lem, get_lem, scalar-eq-some}
use ats_project_management_b.Core.Security.{
  decode_access_token, enforce_password_policy, hash_password, minutes, only_access, or_false,
  verify_password,
}
use ats_project_management_b.Core.Session.{Result, Session, ok, pure, raised, with_session, ◌>>=◌}
use ats_project_management_b.Models.{Database, RefreshToken, User, tokens_clash, user_is_live}
use ats_project_management_b.Platform.{Claims, Platform}
use ats_project_management_b.Users.Repository.{get_by_email}

only_access_lem :
    ⦃x : Platform⦄ (c : Claims) → c.type ≡ some "access" → only_access (some c) ≡ some c
only_access_lem c h = ground (arith, eq_refl "access")

module _ ⦃x : Platform⦄ where
  -- What `get_by_email` finds among the live users.
  abbrev pub stored_email : String → List User → Result (Option User)
  stored_email email rows =
      scalar_one_or_none (filter (λ u. user_is_live u && u.email == email) rows)

  pub get_by_email_lem :
      (email : String) (s : Session x.Float)
      → get_by_email email s ≡ (stored_email email s.current.users, s)
  unfolding get_by_email
  get_by_email_lem email s = find_lem user_model (λ u. u.email == email) s

  -- No user has the e-mail, or the password does not match the user's.
  abbrev pub BadCredentials : String → String → List User → Type 0
  BadCredentials email password rows =
      (stored_email email rows ≡ ok none)
      ⊎ ((u : User) × (stored_email email rows ≡ ok (some u))
          × (verify_password password u.hashed_password ≡ false))

  -- Whether the e-mail is unknown or the password is wrong, login fails with the same exception and
  -- changes nothing: the answer does not tell the two apart.
  pub login_refuses :
      (email password : String) (settings : Settings) (db : Database x.Float) (tick : ℕ)
      → BadCredentials email password db.users
      → with_session (login email password settings) db tick
        ≡ (raised (Exception.app bad_credentials), db)
  unfolding with_session login ◌>>=◌
  login_refuses email password settings db tick (inl unknown) = rw (get_by_email_lem, unknown)
  login_refuses email password settings db tick (inr (u, known, wrong)) =
      ground (arith, get_by_email_lem email (opened db tick))

  module _ (email password : String) (settings : Settings) (db : Database x.Float) (tick : ℕ)
      (user : User) where
    abbrev pub login_row : RefreshToken
    login_row = new_row (tick + 1) user.id (x.uuid7 tick) settings

    -- The credentials are those of an active user, and the new row is stored.
    pub record CanLogin : Type 0 where
      pub known : stored_email email db.users ≡ ok (some user)
      pub matches : verify_password password user.hashed_password ≡ true
      pub active : user.is_active ≡ true
      pub distinct : any (tokens_clash login_row) db.tokens ≡ false

    verified_lem : CanLogin → verified (some user) password ≡ some user
    verified_lem c = ground arith

    pub login_run :
        CanLogin
        → with_session (login email password settings) db tick ≡ (
          ok (new_access (tick + 1) user settings, new_token (tick + 1), user),
          record db { tokens = db.tokens ++ login_row ∷ [] },
        )
    unfolding with_session login ◌>>=◌
    login_run c =
        let s1 : Session x.Float = record { committed = db; current = db; tick = tick + 1 } in
        let issued = issue_pair_lem user (x.uuid7 tick) settings s1 c.distinct in
        rw get_by_email_lem (rw c.known (rw (verified_lem c) (ground (arith, issued, c.active))))

    -- Valid credentials of an active user start a new family: the login returns a fresh pair with
    -- the user, and has stored the refresh token as an open row of that user; no other row and no
    -- other table has changed.
    pub login_opens_family :
        CanLogin
        → let (r, db') = with_session (login email password settings) db tick in
          (r ≡ ok (new_access (tick + 1) user settings, new_token (tick + 1), user))
          × (stored_token (new_token (tick + 1)) db'.tokens ≡ ok (some login_row))
          × (db' ≡ record db { tokens = db.tokens ++ login_row ∷ [] })
    login_opens_family c =
        rw (login_run c)
          (refl, stored_appended (new_token (tick + 1)) db.tokens login_row refl c.distinct, refl)

  -- The access token of a user, presented before it expires, leads back to that user while the user
  -- is live and active; nothing is written.
  pub access_authenticates :
      (n : ℕ) (settings : Settings) (user : User) (db : Database x.Float) (tick : ℕ)
      → stored_user user.id db.users ≡ ok (some user)
      → user.is_active ≡ true
      → x.utcnow tick ≤ x.utcnow n + minutes settings.access_token_expire_minutes
      → with_session (get_current_user (new_access n user settings) settings) db tick
        ≡ (ok user, db)
  unfolding with_session get_current_user decode_access_token ◌>>=◌
  access_authenticates n settings user db tick known active fresh =
      let (claims, decoded, sub, role, type) =
        x.jwt_decode-jwt_encode (new_claims n user settings) settings.jwt_secret_key
          settings.jwt_algorithm (x.utcnow tick) fresh in
      rw decoded (
        rw (only_access_lem claims type) (
          rw sub (
            rw x.parse_uuid-uuid_text
              (rw (get_lem user_model) (rw known (rw (only_active_lem user active)))))))

  change_password_run :
      (user : User) (payload : ChangePassword) (hashed : String) (settings : Settings)
      (db : Database x.Float) (tick : ℕ)
      → verify_password payload.current_password user.hashed_password ≡ true
      → enforce_password_policy payload.new_password settings ≡ ok tt
      → x.hashpw payload.new_password tick ≡ some hashed
      → with_session (change_password user payload settings) db tick ≡ (
        ok tt,
        record db {
          users =
              change_where
                (λ u. u.id == user.id)
                (λ u. record u { hashed_password = hashed })
                db.users;
          tokens = change_where (open_of_user user.id) mark_revoked db.tokens;
        },
      )
  unfolding with_session change_password hash_password revoke_all_for_user save ◌>>=◌
  change_password_run user payload hashed settings db tick good strong hashes =
      rw good (rw strong (rw hashes (rw x.update_lem (rw x.update_lem))))

  -- After `revoke_all_for_user` a stored token of the user is revoked.
  closed_row :
      (user_id : ℕ) (tokens : List RefreshToken) (token : String) (row : RefreshToken)
      → stored_token token (change_where (open_of_user user_id) mark_revoked tokens) ≡ ok (some row)
      → row.user_id ≡ user_id
      → row.revoked ≡ true
  closed_row user_id tokens token row known owner =
      let closed =
        filter-head_count (open_of_user user_id) _
          (change_where (open_of_user user_id) mark_revoked tokens)
          (count-change_where_undone (open_of_user user_id) _ mark_revoked tokens (λ r p. p)
            (λ r p. ground arith))
          (scalar-eq-some _ known) in
      ground (arith, closed)

  -- A password change with the right current password and an acceptable new one that bcrypt can hash
  -- succeeds; the new
  -- password is then the one that verifies, and every refresh token of the user that is still
  -- stored is refused as reused.
  pub change_password_ends_sessions :
      (user : User) (payload : ChangePassword) (hashed : String) (settings : Settings)
      (db : Database x.Float) (tick k : ℕ)
      → verify_password payload.current_password user.hashed_password ≡ true
      → enforce_password_policy payload.new_password settings ≡ ok tt
      → x.hashpw payload.new_password tick ≡ some hashed
      → let (r, db') = with_session (change_password user payload settings) db tick in
        (r ≡ ok tt)
        × (db'.users
            ≡ change_where
                (λ u. u.id == user.id)
                (λ u. record u { hashed_password = hashed })
                db.users)
        × (verify_password payload.new_password hashed ≡ true)
        × ((token : String) (row : RefreshToken)
            → stored_token token db'.tokens ≡ ok (some row)
            → row.user_id ≡ user.id
            → (with_session (refresh token settings) db' k).0
              ≡ raised (Exception.app reuse_detected))
  unfolding verify_password
  change_password_ends_sessions user payload hashed settings db tick k good strong hashes =
      rw (change_password_run user payload hashed settings db tick good strong hashes) (
        refl,
        refl,
        ap or_false (x.checkpw_hashpw payload.new_password hashed tick hashes),
        λ token row known owner.
            ap (λ o. o.0)
              (reuse_commits token settings _ k row known
                (closed_row user.id db.tokens token row known owner)),
      )

  logout_run :
      (token : String) (db : Database x.Float) (tick : ℕ) (row : RefreshToken)
      → stored_token token db.tokens ≡ ok (some row)
      → row.revoked ≡ false
      → with_session (logout token) db tick ≡ (
        ok tt,
        record db {
          tokens =
              change_where
                (λ t. t.id == row.id)
                (λ t. record t { revoked = true; replaced_by_id = none })
                db.tokens;
        },
      )
  unfolding with_session logout revoke save ◌>>=◌
  logout_run token db tick row known open_row =
      let still_open : logout_token (some row) ≡ revoke row none =
        ap (λ b. if b then pure tt else revoke row none) open_row in
      rw get_by_hash_lem (rw known (rw still_open (rw x.update_lem)))

  -- A token that is open before a logout is revoked after it, and no other row changes; a refresh
  -- with it is then answered as a reuse.
  pub logout_revokes :
      (token : String) (settings : Settings) (db : Database x.Float) (tick k : ℕ)
      (row : RefreshToken)
      → stored_token token db.tokens ≡ ok (some row)
      → row.revoked ≡ false
      → let (r, db') = with_session (logout token) db tick in
        (r ≡ ok tt)
        × (db'.tokens
            ≡ change_where
                (λ t. t.id == row.id)
                (λ t. record t { revoked = true; replaced_by_id = none })
                db.tokens)
        × ((with_session (refresh token settings) db' k).0 ≡ raised (Exception.app reuse_detected))
  logout_revokes token settings db tick k row known open_row =
      let f : RefreshToken → RefreshToken =
        λ t. record t { revoked = true; replaced_by_id = none } in
      rw (logout_run token db tick row known open_row) (
        refl,
        refl,
        ap (λ o. o.0)
            (reuse_commits token settings _ k (f row)
              (stored-change_where token (λ t. t.id == row.id) f db.tokens row (λ t. refl) known
                ∙ rw ((nat_eq_iff row.id row.id).1 refl))
              refl),
      )
