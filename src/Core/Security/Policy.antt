-- ===== src/Core/Security/Policy.antt =====
-- Which passwords `enforce_password_policy` accepts.
use ats_project_management_b.Prelude.{◌≡◌, ◌≤◌, ◌↔◌, String, true, any, codes, text_length, arith}
use ats_project_management_b.Platform.{Platform}
use ats_project_management_b.Core.Config.{Settings}
use ats_project_management_b.Core.Session.{ok}
use ats_project_management_b.Core.Security.{is_upper, is_lower, enforce_password_policy}

module _ ⦃x : Platform⦄ where
  -- A password within the policy of the settings.
  pub record IsStrong (password : String) (settings : Settings) : Type 0 where
    pub long_enough : settings.password_min_length ≤ text_length password
    pub short_enough : text_length password ≤ settings.password_max_length
    pub upper : any is_upper (codes password) ≡ true
    pub lower : any is_lower (codes password) ≡ true
    pub digit : any x.is_decimal (codes password) ≡ true

  -- The policy accepts exactly the passwords whose length is within the bounds and that hold an
  -- uppercase letter, a lowercase letter and a decimal digit.
  pub enforce_password_policy_iff :
      (password : String) (settings : Settings)
      → (enforce_password_policy password settings ≡ ok tt) ↔ IsStrong password settings
  unfolding enforce_password_policy
  enforce_password_policy_iff password settings = (λ h. ground arith, λ h. ground arith)
