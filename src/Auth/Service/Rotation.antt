-- ===== src/Auth/Service/Rotation.antt =====
-- Rotation: what `refresh` does with a token that is still valid, and what happens afterwards when
-- the old token is presented again.
use ats_project_management_b.Prelude.{
  Bool, List, Option, String, [], any, ap, arith, change_where, count, eq_iff, false, filter,
  filter-any, filter-append, filter-change_where, filter-head_any, filter-head_passes,
  if◌then◌else◌, nat_eq_iff, none, refl, some, string_eq, true, ℕ, ℕ_eq, ◌&&◌, ◌++◌, ◌+◌, ◌/◌, ◌<◌,
  ◌==◌, ◌∷◌, ◌≡◌,
}
use ats_project_management_b.Auth.Repository.{is_valid, mark_revoked, open_in_family, revoke}
use ats_project_management_b.Auth.Service.{issue_pair, only_active, refresh, reuse_detected, rotate}
use ats_project_management_b.Auth.Service.Refresh.{
  family_revoked, get_by_hash_lem, opened, reuse_commits, stored_token,
}
use ats_project_management_b.Core.Config.{Settings}
use ats_project_management_b.Core.Exceptions.{Exception}
use ats_project_management_b.Core.Repository.{save, scalar_one_or_none, user_model}
use ats_project_management_b.Core.Repository.Laws.{add_lem, get_lem, scalar-eq-some}
use ats_project_management_b.Core.Security.{
  create_access_token, days, generate_refresh_token, minutes,
}
use ats_project_management_b.Core.Session.{Result, Session, ok, raised, with_session, ◌>>=◌}
use ats_project_management_b.Models.{Database, RefreshToken, User, tokens_clash, user_is_live}
use ats_project_management_b.Platform.{Claims, Platform}
use ats_project_management_b.Shared.Enums.{role_value}

-- A fetch that finds a row has found that row alone.
pub only_active_lem : (u : User) → u.is_active ≡ true → only_active (some u) ≡ some u
only_active_lem u h = ground arith

module _ ⦃x : Platform⦄ where
  -- The row and the access token that `issue_pair` makes when `n` answers have been drawn.
  abbrev pub new_token : ℕ → String
  new_token n = x.token_urlsafe 64 (n + 1 + 1)

  abbrev pub new_row : ℕ → ℕ → ℕ → Settings → RefreshToken
  new_row n user_id family_id settings = record {
    id = x.uuid7 (n + 1 + 1 + 1 + 1);
    created_at = x.utcnow (n + 1 + 1 + 1 + 1 + 1);
    token_hash = x.sha256 (new_token n);
    user_id = user_id;
    family_id = family_id;
    expires_at = x.utcnow (n + 1 + 1 + 1) + days settings.refresh_token_expire_days;
    revoked = false;
    replaced_by_id = none;
  }

  abbrev pub new_claims : ℕ → User → Settings → Claims
  new_claims n user settings = record {
    sub = some (x.uuid_text user.id);
    role = some (role_value user.role);
    type = some "access";
    iat = x.utcnow (n + 1) / 1000000;
    exp = x.utcnow n + minutes settings.access_token_expire_minutes;
  }

  abbrev pub new_access : ℕ → User → Settings → x.Jwt
  new_access n user settings =
      x.jwt_encode (new_claims n user settings) settings.jwt_secret_key settings.jwt_algorithm

  pub issue_pair_lem :
      (user : User) (family_id : ℕ) (settings : Settings) (s : Session x.Float)
      → any (tokens_clash (new_row s.tick user.id family_id settings)) s.current.tokens ≡ false
      → issue_pair user family_id settings s ≡ (
        ok (new_access s.tick user settings, new_token s.tick),
        record s {
          current = record s.current {
            tokens = s.current.tokens ++ new_row s.tick user.id family_id settings ∷ [];
          };
          tick = s.tick + 1 + 1 + 1 + 1 + 1 + 1;
        },
      )
  unfolding issue_pair create_access_token generate_refresh_token ◌>>=◌
  issue_pair_lem user family_id settings s h = rw add_lem (rw h)

  is_valid_open :
      (row : RefreshToken) (s : Session x.Float)
      → row.revoked ≡ false
      → x.utcnow s.tick < row.expires_at
      → is_valid row s ≡ (ok true, record s { tick = s.tick + 1 })
  unfolding is_valid ◌>>=◌
  is_valid_open row s h e = ground arith

  -- A row that clashes with none is found under its token.
  pub stored_appended :
      (token : String) (rows : List RefreshToken) (row : RefreshToken)
      → row.token_hash ≡ x.sha256 token
      → any (tokens_clash row) rows ≡ false
      → stored_token token (rows ++ row ∷ []) ≡ ok (some row)
  unfolding scalar_one_or_none
  stored_appended token rows row h e =
      let p : RefreshToken → Bool = λ t. t.token_hash == x.sha256 token in
      rw (filter-append p rows (row ∷ [])) (
        rw
          (filter-any (tokens_clash row) p rows
            (λ r k.
              ground
                (arith, eq_iff r.token_hash (x.sha256 token), eq_iff row.token_hash r.token_hash))
            e)
          (ground (arith, eq_iff row.token_hash (x.sha256 token))))

  -- A change that keeps the hashes happens as well to the token that is found.
  pub stored-change_where :
      (token : String) (q : RefreshToken → Bool) (f : RefreshToken → RefreshToken)
      (rows : List RefreshToken) (r : RefreshToken)
      → ((t : RefreshToken) → (f t).token_hash ≡ t.token_hash)
      → stored_token token rows ≡ ok (some r)
      → stored_token token (change_where q f rows) ≡ ok (some (if q r then f r else r))
  unfolding scalar_one_or_none
  stored-change_where token q f rows r h e =
      let p : RefreshToken → Bool = λ t. t.token_hash == x.sha256 token in
      rw (
        filter-change_where p q f rows (λ t. ap (λ v. v == x.sha256 token) (h t)),
        scalar-eq-some (filter p rows) e,
      )

  -- The user that `users.get` finds.
  abbrev pub stored_user : ℕ → List User → Result (Option User)
  stored_user id rows = scalar_one_or_none (filter (λ u. user_is_live u && u.id == id) rows)

  module _ (token : String) (settings : Settings) (db : Database x.Float) (tick : ℕ)
      (row : RefreshToken) (user : User) where
    abbrev pub rotated_row : RefreshToken
    rotated_row = record row {
      revoked = true;
      replaced_by_id = some (x.uuid7 (tick + 1 + 1 + 1 + 1 + 1));
    }

    abbrev pub fresh_row : RefreshToken
    fresh_row = new_row (tick + 1) user.id row.family_id settings

    abbrev pub rotated_tokens : List RefreshToken
    rotated_tokens =
        change_where (λ t. t.id == row.id)
          (λ t. record t { revoked = true; replaced_by_id = some fresh_row.id })
          (db.tokens ++ fresh_row ∷ [])

    -- The token is open, has not expired, belongs to an active user, and the new row is stored.
    pub record CanRotate : Type 0 where
      pub known : stored_token token db.tokens ≡ ok (some row)
      pub open_row : row.revoked ≡ false
      pub unexpired : x.utcnow tick < row.expires_at
      pub owner : stored_user row.user_id db.users ≡ ok (some user)
      pub active : user.is_active ≡ true
      pub distinct : any (tokens_clash fresh_row) db.tokens ≡ false

    stored_new :
        CanRotate
        → stored_token (new_token (tick + 1)) (db.tokens ++ fresh_row ∷ []) ≡ ok (some fresh_row)
    stored_new c = stored_appended (new_token (tick + 1)) db.tokens fresh_row refl c.distinct

    rotate_run :
        CanRotate
        → rotate row settings (opened db tick) ≡ (
          ok (new_access (tick + 1) user settings, new_token (tick + 1)),
          record {
            committed = db;
            current = record db { tokens = rotated_tokens };
            tick = tick + 1 + 1 + 1 + 1 + 1 + 1 + 1;
          },
        )
    unfolding rotate revoke save ◌>>=◌
    rotate_run c =
        let s1 : Session x.Float = record { committed = db; current = db; tick = tick + 1 } in
        rw (is_valid_open row (opened db tick) c.open_row c.unexpired) (
          rw (get_lem user_model) (
            rw c.owner (
              rw (only_active_lem user c.active) (
                rw (issue_pair_lem user row.family_id settings s1 c.distinct)
                  (rw get_by_hash_lem (rw (stored_new c) (rw x.update_lem)))))))

    pub rotate_lem :
        CanRotate
        → with_session (refresh token settings) db tick ≡ (
          ok (new_access (tick + 1) user settings, new_token (tick + 1)),
          record db { tokens = rotated_tokens },
        )
    unfolding with_session refresh ◌>>=◌
    rotate_lem c =
        ground (arith, get_by_hash_lem token (opened db tick), rotate_run c, c.known, c.open_row)

    -- The lookups of the two tokens in the table that the rotation leaves.
    fresh_differs : CanRotate → tokens_clash fresh_row row ≡ false
    fresh_differs c =
        filter-head_any (tokens_clash fresh_row) _ db.tokens c.distinct (scalar-eq-some _ c.known)

    stored_old : CanRotate → stored_token token (db.tokens ++ fresh_row ∷ []) ≡ ok (some row)
    unfolding scalar_one_or_none
    stored_old c =
        let p : RefreshToken → Bool = λ t. t.token_hash == x.sha256 token in
        let alone : filter p db.tokens ≡ row ∷ [] = scalar-eq-some (filter p db.tokens) c.known in
        rw (filter-append p db.tokens (fresh_row ∷ []), alone)
          (ground (
            arith,
            fresh_differs c,
            filter-head_passes p db.tokens alone,
            eq_iff row.token_hash (x.sha256 token),
            eq_iff fresh_row.token_hash (x.sha256 token),
            eq_iff fresh_row.token_hash row.token_hash,
          ))

    -- In the table that a rotation leaves, the old token is revoked and names its successor …
    pub rotated_old : CanRotate → stored_token token rotated_tokens ≡ ok (some rotated_row)
    rotated_old c = rw (
      stored-change_where token (λ t. t.id == row.id)
          (λ t. record t { revoked = true; replaced_by_id = some fresh_row.id })
          (db.tokens ++ fresh_row ∷ []) row (λ t. refl) (stored_old c),
      (nat_eq_iff row.id row.id).1 refl,
    )

    -- … which is open.
    pub rotated_new :
        CanRotate → stored_token (new_token (tick + 1)) rotated_tokens ≡ ok (some fresh_row)
    rotated_new c =
        rw
          (stored-change_where (new_token (tick + 1)) (λ t. t.id == row.id)
            (λ t. record t { revoked = true; replaced_by_id = some fresh_row.id })
            (db.tokens ++ fresh_row ∷ []) fresh_row (λ t. refl) (stored_new c))
          (ground (arith, fresh_differs c))

    -- A refresh with a token that is stored, open and unexpired, whose user is active, and whose
    -- new row clashes with none, succeeds: it returns the new access and refresh token, the old
    -- token is revoked and names the new row, the new token is stored and open in the same family
    -- for the same user, and no other table has changed.
    pub refresh_rotates :
        CanRotate
        → let (r, db') = with_session (refresh token settings) db tick in
          (r ≡ ok (new_access (tick + 1) user settings, new_token (tick + 1)))
          × (stored_token token db'.tokens
              ≡ ok (some (record row { revoked = true; replaced_by_id = some fresh_row.id })))
          × (stored_token (new_token (tick + 1)) db'.tokens ≡ ok (some fresh_row))
          × (record db' { tokens = db.tokens } ≡ db)
    refresh_rotates c = rw (rotate_lem c) (refl, rotated_old c, rotated_new c, refl)

    -- The table after a rotation and a replay of the old token.
    abbrev replayed_tokens : List RefreshToken
    replayed_tokens = change_where (open_in_family row.family_id) mark_revoked rotated_tokens

    replayed_new :
        CanRotate
        → stored_token (new_token (tick + 1)) replayed_tokens
          ≡ ok (some (record fresh_row { revoked = true }))
    replayed_new c = rw (
      stored-change_where (new_token (tick + 1)) (open_in_family row.family_id) mark_revoked
          rotated_tokens fresh_row (λ t. refl) (rotated_new c),
      (nat_eq_iff row.family_id row.family_id).1 refl,
    )

    -- If, after a successful rotation, the old token is presented once more, the request fails with
    -- TOKEN_REUSE_DETECTED, no token of the family is open any more, and the token that the
    -- rotation gave out is refused the same way from then on.
    pub replay_ends_family :
        CanRotate
        → (m k : ℕ)
        → let (_, db') = with_session (refresh token settings) db tick in
          let (r, db'') = with_session (refresh token settings) db' m in
          (r ≡ raised (Exception.app reuse_detected))
          × (count (open_in_family row.family_id) db''.tokens ≡ 0)
          × ((with_session (refresh (new_token (tick + 1)) settings) db'' k).0
              ≡ raised (Exception.app reuse_detected))
    replay_ends_family c m k =
        let db' : Database x.Float = record db { tokens = rotated_tokens } in
        let db'' : Database x.Float = record db { tokens = replayed_tokens } in
        rw (rotate_lem c) (
          rw (reuse_commits token settings db' m rotated_row (rotated_old c) refl) (
            refl,
            (family_revoked row.family_id db').0,
            ap (λ o. o.0)
                (reuse_commits (new_token (tick + 1)) settings db'' k
                  (record fresh_row { revoked = true }) (replayed_new c) refl),
          ))
