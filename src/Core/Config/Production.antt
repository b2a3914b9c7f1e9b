-- ===== src/Core/Config/Production.antt =====
-- Which settings start in production.
use text.Mathlib.Text.{starts_with}
use ats_project_management_b.Prelude.{
  All, Bool, Bool-cases, List, String, [], any, ap, arith, eq_iff, false, if◌then◌else◌, inl, inr,
  ltb, none, refl, some, string_eq, text_length, true, ℕ_eq, ◌<◌, ◌==◌, ◌||◌, ◌↔◌, ◌∷◌, ◌≡◌, ◌≤◌,
}
use ats_project_management_b.Core.Config.{
  ConfigError, Environment, Settings, insecure_secrets, is_production, is_weak, normalize,
  normalize_and_validate, production_error, settings_or,
}

or_right : {a b : Bool} → a ≡ false → (a || b) ≡ true → b ≡ true
or_right {a} {b} h e = ground arith

or_left : {a b : Bool} → b ≡ false → (a || b) ≡ true → a ≡ true
or_left {a} {b} h e = ground arith

or_true : (a b : Bool) → b ≡ true → (a || b) ≡ true
or_true a b h = ground arith

any_short :
    (secret : String) (listed : List String)
    → All (λ t. text_length t < 32) listed
    → any (λ insecure. secret == insecure) listed ≡ true
    → text_length secret < 32
any_short secret [] h e = cc
any_short secret (t ∷ listed) h e = elim (Bool-cases (secret == t)) [
  | inl same ↦ rw ((eq_iff secret t).0 same) h.0
  | inr other ↦ any_short secret listed h.1 (or_right other e)
]

-- The listed secrets are all shorter than 32 characters, so that the length decides.
weak_iff : (secret : String) → (is_weak secret ≡ true) ↔ (text_length secret < 32)
weak_iff secret = (
  λ h. elim (Bool-cases (ltb (text_length secret) 32)) [
    | inl short ↦ ground arith
    | inr long ↦ any_short secret insecure_secrets (omega arith) (or_left long h)
  ],
  λ h.
      or_true (any (λ insecure. secret == insecure) insecure_secrets) (ltb (text_length secret) 32)
        (ground arith),
)

strong : (secret : String) → is_weak secret ≡ false → 32 ≤ text_length secret
strong secret h = grind (arith, (weak_iff secret).1)

long : (secret : String) → 32 ≤ text_length secret → is_weak secret ≡ false
long secret h = elim (Bool-cases (is_weak secret)) [
  | inl w ↦ absurd (omega (arith, (weak_iff secret).0 w))
  | inr w ↦ w
]

-- The outcome of the three checks.
checks_iff :
    (weak sqlite debug : Bool) (settings : Settings)
    → (settings_or settings (
          if weak
          then some ConfigError.weak_secret
          else if sqlite
          then some ConfigError.sqlite_in_production
          else if debug
          then some ConfigError.debug_in_production
          else none)
        ≡ inl settings)
      ↔ ((weak ≡ false) × (sqlite ≡ false) × (debug ≡ false))
checks_iff true sqlite debug settings = ((λ h. cc), λ h. cc)
checks_iff false true debug settings = ((λ h. cc), λ h. cc)
checks_iff false false true settings = ((λ h. cc), λ h. cc)
checks_iff false false false settings = ((λ h. (refl, refl, refl)), λ h. refl)

-- In production the validator accepts settings exactly if the secret has 32 characters at least,
-- the normalized URL is not one of SQLite, and debugging is off; it then only normalizes the URL.
pub production_accepts_iff :
    (settings : Settings)
    → settings.environment ≡ Environment.production
    → (normalize_and_validate settings
        ≡ inl (record settings { database_url = normalize settings.database_url }))
      ↔ ((32 ≤ text_length settings.jwt_secret_key)
          × (starts_with (normalize settings.database_url) "sqlite" ≡ false)
          × (settings.debug ≡ false))
unfolding normalize_and_validate production_error
production_accepts_iff settings h =
    let p : is_production settings.environment ≡ true = ap is_production h in
    let secret = settings.jwt_secret_key in
    let weak = weak_iff secret in
    let checks =
      checks_iff (is_weak secret) (starts_with (normalize settings.database_url) "sqlite")
        settings.debug (record settings { database_url = normalize settings.database_url }) in
    rw p (
      λ e. let (w, q, d) = checks.0 e in (strong secret w, q, d),
      λ e. checks.1 (long secret e.0, e.1, e.2),
    )
