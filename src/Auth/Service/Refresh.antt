-- ===== src/Auth/Service/Refresh.antt =====
-- What happens when a revoked refresh token comes back.
use ats_project_management_b.Prelude.{
  Bool, List, Option, String, [], ap, arith, change_where, count, count-change_where_undone, false,
  filter, filter-change_where_outside, if◌then◌else◌, map, not, refl, some, string_eq, true, ℕ,
  ℕ_eq, ◌&&◌, ◌==◌, ◌∷◌, ◌≡◌,
}
use ats_project_management_b.Auth.Repository.{
  get_by_hash, mark_revoked, open_in_family, revoke_family,
}
use ats_project_management_b.Auth.Service.{punish, refresh, reuse_detected}
use ats_project_management_b.Core.Config.{Settings}
use ats_project_management_b.Core.Exceptions.{Exception}
use ats_project_management_b.Core.Repository.{scalar_one_or_none, token_model}
use ats_project_management_b.Core.Repository.Laws.{find_lem, update_where_lem}
use ats_project_management_b.Core.Session.{Result, Session, ok, raised, with_session, ◌>>=◌}
use ats_project_management_b.Models.{Database, RefreshToken}
use ats_project_management_b.Platform.{Platform}

module _ ⦃x : Platform⦄ where
  -- What `get_by_hash` finds in a table.
  abbrev pub stored_token : String → List RefreshToken → Result (Option RefreshToken)
  stored_token token tokens =
      scalar_one_or_none (filter (λ t. t.token_hash == x.sha256 token) tokens)

  pub get_by_hash_lem :
      (token : String) (s : Session x.Float)
      → get_by_hash (x.sha256 token) s ≡ (stored_token token s.current.tokens, s)
  unfolding get_by_hash
  get_by_hash_lem token s = find_lem token_model _ s

  -- The session that a request starts with.
  abbrev pub opened : Database x.Float → ℕ → Session x.Float
  opened db tick = record { committed = db; current = db; tick = tick }

  pub reuse_commits :
      (token : String) (settings : Settings) (db : Database x.Float) (tick : ℕ) (row : RefreshToken)
      → stored_token token db.tokens ≡ ok (some row)
      → row.revoked ≡ true
      → with_session (refresh token settings) db tick ≡ (
        raised (Exception.app reuse_detected),
        record db { tokens = change_where (open_in_family row.family_id) mark_revoked db.tokens },
      )
  unfolding with_session refresh punish revoke_family ◌>>=◌
  reuse_commits token settings db tick row h e = ground (
    arith,
    get_by_hash_lem token (opened db tick),
    update_where_lem token_model (open_in_family row.family_id) mark_revoked (opened db tick),
  )

  -- A row after a revocation of a family.
  abbrev pub revoked_in : ℕ → RefreshToken → RefreshToken
  revoked_in family_id t =
      if t.family_id == family_id
      then record {
        id = t.id;
        created_at = t.created_at;
        token_hash = t.token_hash;
        user_id = t.user_id;
        family_id = t.family_id;
        expires_at = t.expires_at;
        revoked = true;
        replaced_by_id = t.replaced_by_id;
      }
      else t

  flag_set :
      (same old : Bool) (t : RefreshToken)
      → t.revoked ≡ old
      → (if same && not old then mark_revoked t else t) ≡ (if same then mark_revoked t else t)
  flag_set true true t h = ap (λ b. record t { revoked = b }) h
  flag_set true false t h = refl
  flag_set false old t h = refl

  change_where_revoked :
      (family_id : ℕ) (tokens : List RefreshToken)
      → change_where (open_in_family family_id) mark_revoked tokens
        ≡ map (λ t. revoked_in family_id t) tokens
  change_where_revoked family_id [] = refl
  change_where_revoked family_id (t ∷ ts) =
      rw (flag_set (t.family_id == family_id) t.revoked t refl)
        (ap (λ r. revoked_in family_id t ∷ r) (change_where_revoked family_id ts))

  -- What is left after a revocation of a family: the rows are those from before, each open one of
  -- the family with its flag set and all others as they were, nothing of the family is open, and no
  -- other table has changed.
  abbrev pub FamilyRevoked : ℕ → Database x.Float → Database x.Float → Type 0
  FamilyRevoked family_id db db' =
      (count (open_in_family family_id) db'.tokens ≡ 0)
      × (db'.tokens ≡ map (λ t. revoked_in family_id t) db.tokens)
      × (filter (λ t. not (t.family_id == family_id)) db'.tokens
          ≡ filter (λ t. not (t.family_id == family_id)) db.tokens)
      × (record db' { tokens = db.tokens } ≡ db)

  pub family_revoked :
      (family_id : ℕ) (db : Database x.Float)
      → FamilyRevoked family_id db
          (record db { tokens = change_where (open_in_family family_id) mark_revoked db.tokens })
  family_revoked family_id db = (
    count-change_where_undone (open_in_family family_id) _ mark_revoked db.tokens (λ r p. p)
        (λ r p. ground arith),
    change_where_revoked family_id db.tokens,
    filter-change_where_outside _ (open_in_family family_id) mark_revoked db.tokens
        (λ r p. ground arith) (λ r p. ground arith),
    refl,
  )

  -- If a refresh token is presented whose row is already revoked, the request fails with
  -- TOKEN_REUSE_DETECTED, and although it fails the database that it leaves has no open token in
  -- the row's family: every row of that family is as it was but for its flag, which is set, and the
  -- tokens of all other families and all other tables are as they were.
  pub reuse_revokes_family :
      (token : String) (settings : Settings) (db : Database x.Float) (tick : ℕ) (row : RefreshToken)
      → stored_token token db.tokens ≡ ok (some row)
      → row.revoked ≡ true
      → let (r, db') = with_session (refresh token settings) db tick in
        (r ≡ raised (Exception.app reuse_detected)) × FamilyRevoked row.family_id db db'
  reuse_revokes_family token settings db tick row h e =
      rw (reuse_commits token settings db tick row h e) (refl, family_revoked row.family_id db)
