-- ===== src/Analytics/Counts.antt =====
-- The dicts of counts in app/modules/analytics/repository.py: association lists over the enum
-- members or texts that are their keys, in the order of insertion.
use ats_project_management_b.Prelude.{Bool, List, [], if◌then◌else◌, ℕ, ◌+◌, ◌∷◌}

module _ {K : Type 0} (same : K → K → Bool) where
  -- `counts[key] = n`
  abbrev pub set_count : K → ℕ → List (K × ℕ) → List (K × ℕ)
  set_count key n [] = (key, n) ∷ []
  set_count key n ((k, m) ∷ counts) =
      let rest = set_count key n counts in if same k key then (k, n) ∷ counts else (k, m) ∷ rest

  -- `counts.update({key: n for key, n in rows})`
  unfoldable pub update_counts : List (K × ℕ) → List (K × ℕ) → List (K × ℕ)
  update_counts [] counts = counts
  update_counts ((key, n) ∷ rows) counts = update_counts rows (set_count key n counts)

-- `dict.fromkeys(keys, 0)`, of distinct keys.
abbrev pub from_keys : {K : Type 0} → List K → List (K × ℕ)
from_keys [] = []
from_keys (key ∷ keys) = (key, 0) ∷ from_keys keys

-- The sum of a dict's values.
abbrev pub total_of : {K : Type 0} → List (K × ℕ) → ℕ
total_of [] = 0
total_of ((key, n) ∷ counts) = n + total_of counts
