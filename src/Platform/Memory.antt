-- ===== src/Platform/Memory.antt =====
-- An instance: tables as lists, a toy hash that keeps the password, integers for floats. It shows
-- that the assumptions can be met, and it runs the tests.
use Prim.Native.Char.{char, code}
use mathlib.Core.Option
use text.Mathlib.TextPositions.{eq_refl}
use ats_project_management_b.Prelude.{
  Bool, Bool-cases, List, Option, String, [], any, any-count, ap, arith, count, drop, false, filter,
  if◌then◌else◌, inl, inr, is_some, leb, length, ltb, map, none, not, refl, some, string_eq, suc,
  take, text_length, true, zero, ℕ, ℕ_eq, ◌&&◌, ◌*◌, ◌++◌, ◌+◌, ◌/◌, ◌<>◌, ◌<◌, ◌==◌, ◌||◌, ◌↔◌,
  ◌∷◌, ◌≡◌, ◌≤◌,
}
use ats_project_management_b.Platform.Defs.{Claims, Ordered, Platform, has_clash}

module _ {A : Type 0} (le : A → A → Bool) where
  abbrev pub insert_sorted : A → List A → List A
  insert_sorted r [] = r ∷ []
  insert_sorted r (q ∷ t) = let rest = insert_sorted r t in if le r q then r ∷ q ∷ t else q ∷ rest

  abbrev pub sort_rows : List A → List A
  sort_rows [] = []
  sort_rows (r ∷ t) = insert_sorted r (sort_rows t)

  count-insert_sorted :
      (p : A → Bool) (r : A) (t : List A) → count p (insert_sorted r t) ≡ count p (r ∷ t)
  count-insert_sorted p r [] = refl
  count-insert_sorted p r (q ∷ t) = ground (arith, count-insert_sorted p r t)

  pub count-sort_rows : (p : A → Bool) (t : List A) → count p (sort_rows t) ≡ count p t
  count-sort_rows p [] = refl
  count-sort_rows p (r ∷ t) =
      omega (arith, count-insert_sorted p r (sort_rows t), count-sort_rows p t)

  module _ (total : (a b : A) → le a b ≡ false → le b a ≡ true) where
    insert_sorted_after :
        (q r : A) (t : List A)
        → le q r ≡ true
        → Ordered le (q ∷ t)
        → Ordered le (insert_sorted r t)
        → Ordered le (q ∷ insert_sorted r t)
    insert_sorted_after q r [] h o k = (h, tt)
    insert_sorted_after q r (p ∷ t) h o k = ground arith

    insert_sorted-Ordered : (r : A) (t : List A) → Ordered le t → Ordered le (insert_sorted r t)
    insert_sorted-Ordered r [] o = tt
    insert_sorted-Ordered r (q ∷ []) o = ground (arith, total r q)
    insert_sorted-Ordered r (q ∷ p ∷ t) o =
        ground
          (arith, total r q, insert_sorted-Ordered r (p ∷ t) o.1, insert_sorted_after q r (p ∷ t))

    pub sort_rows-Ordered : (t : List A) → Ordered le (sort_rows t)
    sort_rows-Ordered [] = tt
    sort_rows-Ordered (r ∷ t) = insert_sorted-Ordered r (sort_rows t) (sort_rows-Ordered t)

-- A UUID as that many letters.
abbrev pub uuid_text : ℕ → String
uuid_text zero = ""
uuid_text (suc n) = String.◌∷◌ (char 120 tt) (uuid_text n)

abbrev pub parse_uuid : String → Option ℕ
parse_uuid String.[] = some 0
parse_uuid (String.◌∷◌ c s) = if code c == 120 then Option.map suc (parse_uuid s) else none

pub parse_uuid-uuid_text : (n : ℕ) → parse_uuid (uuid_text n) ≡ some n
parse_uuid-uuid_text zero = refl
parse_uuid-uuid_text (suc n) = ap (Option.map suc) (parse_uuid-uuid_text n)

abbrev pub toy_hash : String → String
toy_hash s = "#" <> s

-- An encoded token holds its payload and its key.
abbrev pub Jwt : Type 0
Jwt = Claims × String × String

abbrev pub jwt_decode : Jwt → String → String → ℕ → Option Claims
jwt_decode (c, key', algorithm') key algorithm now =
    if key' == key && algorithm' == algorithm && leb now c.exp then some c else none

pub jwt_decode-jwt_encode :
    (c : Claims) (key algorithm : String) (now : ℕ)
    → now ≤ c.exp
    → (d : Claims) × (jwt_decode (c, key, algorithm) key algorithm now ≡ some d)
      × (d.sub ≡ c.sub)
      × (d.role ≡ c.role)
      × (d.type ≡ c.type)
jwt_decode-jwt_encode c key algorithm now h =
    (c, ground (arith, eq_refl key, eq_refl algorithm), refl, refl, refl)

pub ltb_cotrans : (a b c : ℕ) → ltb a b ≡ false → ltb b c ≡ false → ltb a c ≡ false
ltb_cotrans a b c h k = ground arith

pub ltb_trans : (a b c : ℕ) → ltb a b ≡ true → ltb b c ≡ true → ltb a c ≡ true
ltb_trans a b c h k = ground arith

pub ltb_irrefl : (a : ℕ) → ltb a a ≡ false
ltb_irrefl a = ground arith

-- The rows of a SELECT, which keeps their order if it has no ORDER BY.
abbrev pub listed : {A : Type 0} → Option (A → A → Bool) → List A → List A
listed none t = t
listed (some le) t = sort_rows le t

pub count-listed :
    {A : Type 0} (o : Option (A → A → Bool)) (p : A → Bool) (t : List A)
    → count p (listed o t) ≡ count p t
count-listed none p t = refl
count-listed (some le) p t = count-sort_rows le p t

-- A hash of at most 72 characters, as bcrypt's.
abbrev pub toy_hashpw : String → Option String
toy_hashpw password = if ltb 72 (text_length password) then none else some (toy_hash password)

pub checkpw_hashpw :
    (password hashed : String) (n : ℕ)
    → toy_hashpw password ≡ some hashed
    → some (toy_hash password == hashed) ≡ some true
checkpw_hashpw password hashed n h = ground (arith, eq_refl (toy_hash password))

pub is_decimal_ascii : (c : ℕ) → c < 128 → (leb 48 c && leb c 57) ≡ (leb 48 c && leb c 57)
is_decimal_ascii c h = refl

abbrev pub bigger : ℕ → Option ℕ → Option ℕ
bigger n none = some n
bigger n (some m) = some (if ltb m n then n else m)

bigger_some : {A : Type 0} (n : ℕ) (o : Option ℕ) (xs : List A) → bigger n o ≡ none → xs ≡ []
bigger_some n none xs h = cc
bigger_some n (some m) xs h = cc

module _ {A : Type 0} (f : A → ℕ) where
  abbrev pub max_float : List A → Option ℕ
  max_float [] = none
  max_float (r ∷ t) = bigger (f r) (max_float t)

  pub max_float_none : (t : List A) → max_float t ≡ none → t ≡ []
  max_float_none [] h = refl
  max_float_none (r ∷ t) h = bigger_some (f r) (max_float t) (r ∷ t) h

  above_mono :
      (t : List A) (m n : ℕ)
      → m ≤ n
      → any (λ r. ltb m (f r)) t ≡ false
      → any (λ r. ltb n (f r)) t ≡ false
  above_mono [] m n h k = refl
  above_mono (r ∷ t) m n h k = ground (arith, above_mono t m n h)

  above_next :
      (r : A) (t : List A) (o : Option ℕ) (m : ℕ)
      → (o ≡ none → t ≡ [])
      → ((k : ℕ) → o ≡ some k → any (λ q. ltb k (f q)) t ≡ false)
      → bigger (f r) o ≡ some m
      → any (λ q. ltb m (f q)) (r ∷ t) ≡ false
  above_next r t none m empty above h = rw (empty refl) (ground arith)
  above_next r t (some k) m empty above h = elim (Bool-cases (ltb k (f r))) [
    | inl e ↦ ground (arith, above k refl, above_mono t k m)
    | inr e ↦ ground (arith, above k refl, above_mono t k m)
  ]

  pub max_float_above :
      (t : List A) (m : ℕ) → max_float t ≡ some m → any (λ r. ltb m (f r)) t ≡ false
  max_float_above [] m h = refl
  max_float_above (r ∷ t) m h =
      above_next r t (max_float t) m (max_float_none t) (max_float_above t) h

module _ {K : Type 0} (same : K → K → Bool) where
  abbrev pub bump : K → List (K × ℕ) → List (K × ℕ)
  bump k [] = (k, 1) ∷ []
  bump k ((j, n) ∷ rows) =
      let rest = bump k rows in if same j k then (j, n + 1) ∷ rows else (j, n) ∷ rest

  module _ {A : Type 0} (f : A → K) where
    abbrev pub group_count : List A → List (K × ℕ)
    group_count [] = []
    group_count (a ∷ t) = bump (f a) (group_count t)

  module _ (same_iff : (i j : K) → (same i j ≡ true) ↔ (i ≡ j)) where
    same_refl : (k : K) → same k k ≡ true
    same_refl k = (same_iff k k).1 refl

    filter-bump_other :
        (k j : K) (rows : List (K × ℕ))
        → same j k ≡ false
        → filter (λ r. same r.0 k) (bump j rows) ≡ filter (λ r. same r.0 k) rows
    filter-bump_other k j [] h = rw h refl
    filter-bump_other k j ((i, n) ∷ rows) h = elim (Bool-cases (same i j)) [
      | inl e ↦ rw (e, ap (λ x. same x k) ((same_iff i j).0 e), h) refl
      | inr e ↦ rw (e, filter-bump_other k j rows h) refl
    ]

    -- The row of a key after another row of the group.
    abbrev bumped : K → List (K × ℕ) → List (K × ℕ)
    bumped k [] = (k, 1) ∷ []
    bumped k ((j, n) ∷ rest) = (j, n + 1) ∷ rest

    filter-bump_self :
        (k : K) (rows : List (K × ℕ))
        → filter (λ r. same r.0 k) (bump k rows) ≡ bumped k (filter (λ r. same r.0 k) rows)
    filter-bump_self k [] = rw (same_refl k) refl
    filter-bump_self k ((j, n) ∷ rows) = elim (Bool-cases (same j k)) [
      | inl e ↦ rw (e, e) refl
      | inr e ↦ rw (e, e) (filter-bump_self k rows)
    ]

    bumped_none :
        {A : Type 0} (p : A → Bool) (k : K) (t : List A)
        → bumped k (if any p t then (k, count p t) ∷ [] else []) ≡ (k, 1 + count p t) ∷ []
    bumped_none p k t = elim (Bool-cases (any p t)) [
      | inl e ↦ rw e (ap (λ n. (k, n) ∷ []) (omega arith))
      | inr e ↦ rw (e, any-count p t e) refl
    ]

    pub group_count_lem :
        {A : Type 0} (f : A → K) (k : K) (t : List A)
        → filter (λ r. same r.0 k) (group_count f t)
          ≡ (if any (λ a. same (f a) k) t then (k, count (λ a. same (f a) k) t) ∷ [] else [])
    group_count_lem f k [] = refl
    group_count_lem f k (a ∷ t) = elim (Bool-cases (same (f a) k)) [
      | inl e ↦
          rw
            (e, (same_iff (f a) k).0 e, filter-bump_self k (group_count f t), group_count_lem f k t)
            (bumped_none (λ b. same (f b) k) k t)
      | inr e ↦
          rw (e, filter-bump_other k (f a) (group_count f t) e, group_count_lem f k t)
            (ap (λ n. if any (λ b. same (f b) k) t then (k, n) ∷ [] else []) (omega arith))
    ]

-- The matching pairs, row by row.
abbrev pub pairs_with : {A B : Type 0} → (A → B → Bool) → A → List B → List (A × B)
pairs_with p a [] = []
pairs_with p a (b ∷ bs) = let rest = pairs_with p a bs in if p a b then (a, b) ∷ rest else rest

abbrev pub join_rows : {A B : Type 0} → (A → B → Bool) → List A → List B → List (A × B)
join_rows p [] bs = []
join_rows p (a ∷ t) bs = pairs_with p a bs ++ join_rows p t bs

instance abbrev pub memory : Platform
memory = record {
  select = filter;
  insert = λ clash r t. if any (clash r) t then none else some (t ++ r ∷ []);
  update = λ p f t. map (λ r. if p r then f r else r) t;
  update_unique = λ clash p f t.
      if has_clash clash (map (λ r. if p r then f r else r) t)
      then none
      else some (map (λ r. if p r then f r else r) t);
  delete = λ p t. filter (λ r. not (p r)) t;
  select_lem = λ p t. refl;
  insert_lem = λ clash r t. refl;
  update_lem = λ p f t. refl;
  update_unique_lem = λ clash p f t. refl;
  delete_lem = λ p t. refl;
  order_by = sort_rows;
  count-order_by = λ le p t. count-sort_rows le p t;
  order_by-Ordered = λ le t total. sort_rows-Ordered le total t;
  query_order = λ n. listed;
  count-query_order = λ n. count-listed;
  query_order-Ordered = λ n le t total. sort_rows-Ordered le total t;
  offset_limit = λ offset limit t. take limit (drop offset t);
  offset_limit_lem = λ offset limit t. refl;
  count_rows = length;
  count_rows_lem = λ t. refl;
  collate = λ a b. true;
  collate_total = λ a b h. refl;
  nullable_le = λ a b. is_some b || not (is_some a);
  group_count = λ same f t. group_count same f t;
  group_count_lem = λ same f k t same_iff. group_count_lem same same_iff f k t;
  join_rows = join_rows;
  today = λ n. 100;
  true_div = ◌/◌;
  mul_float = ◌*◌;
  round_float = λ a digits. a;
  foreign_keys = true;
  ilike = λ s t. s == t;
  uuid7 = λ n. 1000 + n;
  utcnow = λ n. 1000000 * n;
  lower = λ s. s;
  strip = λ s. s;
  uuid4_hex = uuid_text;
  path_suffix = λ name. ".txt";
  token_urlsafe = λ size n. uuid_text n;
  hashpw = λ password n. toy_hashpw password;
  checkpw = λ password hashed. some (toy_hash password == hashed);
  checkpw_hashpw = checkpw_hashpw;
  normalize_email = λ s. s;
  sha256 = toy_hash;
  uuid_text = uuid_text;
  parse_uuid = parse_uuid;
  parse_uuid-uuid_text = parse_uuid-uuid_text;
  Jwt = Jwt;
  jwt_encode = λ c key algorithm. (c, key, algorithm);
  jwt_decode = jwt_decode;
  jwt_decode-jwt_encode = jwt_decode-jwt_encode;
  is_decimal = λ c. leb 48 c && leb c 57;
  is_decimal_ascii = is_decimal_ascii;
  Float = ℕ;
  lt_float = ltb;
  add_float = ◌+◌;
  to_float = λ n. n;
  lt_float_irrefl = ltb_irrefl;
  lt_float_trans = ltb_trans;
  lt_float_cotrans = ltb_cotrans;
  max_float = max_float;
  max_float_none = max_float_none;
  max_float_above = max_float_above;
  stale_text = "UPDATE statement on table 'tasks' expected to update 1 row(s); 0 were matched.";
}
