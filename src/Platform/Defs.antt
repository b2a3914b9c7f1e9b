-- ===== src/Platform/Defs.antt =====
-- The interface, with the documented behaviour that the program relies on.
use ats_project_management_b.Prelude.{
  Bool, List, Option, String, [], any, count, drop, false, filter, if◌then◌else◌, leb, length, map,
  none, not, some, take, true, ℕ, ◌&&◌, ◌++◌, ◌<◌, ◌||◌, ◌↔◌, ◌∷◌, ◌≡◌, ◌≤◌,
}

-- Two rows at different places of a table clash.
abbrev pub has_clash : {A : Type 0} → (A → A → Bool) → List A → Bool
has_clash clash [] = false
has_clash clash (r ∷ t) = any (clash r) t || has_clash clash t

-- Each row is followed by one that the order puts after it.
abbrev pub Ordered : {A : Type 0} → (A → A → Bool) → List A → Type 0
Ordered le [] = Unit
Ordered le (r ∷ []) = Unit
Ordered le (r ∷ q ∷ t) = (le r q ≡ true) × Ordered le (q ∷ t)

-- The payload of an access token; a key that the dict lacks is `none`. `sub` and `role` are texts.
pub record Claims : Type 0 where
  pub sub : Option String
  pub role : Option String
  pub type : Option String
  pub iat : ℕ
  pub exp : ℕ

pub record Platform : Type 1 where
  -- The statements that the database executes on one table.
  pub select : {A : Type 0} → (A → Bool) → List A → List A
  pub insert : {A : Type 0} → (A → A → Bool) → A → List A → Option (List A)
  pub update : {A : Type 0} → (A → Bool) → (A → A) → List A → List A
  pub update_unique :
      {A : Type 0} → (A → A → Bool) → (A → Bool) → (A → A) → List A → Option (List A)
  pub delete : {A : Type 0} → (A → Bool) → List A → List A
  -- SELECT … WHERE gives the rows that pass the test.
  pub select_lem : {A : Type 0} (p : A → Bool) (t : List A) → select p t ≡ filter p t
  -- INSERT adds the row, unless a unique index excludes it.
  pub insert_lem :
      {A : Type 0} (clash : A → A → Bool) (r : A) (t : List A)
      → insert clash r t ≡ (if any (clash r) t then none else some (t ++ r ∷ []))
  -- UPDATE … WHERE changes the rows that pass the test, of columns under no unique index …
  pub update_lem :
      {A : Type 0} (p : A → Bool) (f : A → A) (t : List A)
      → update p f t ≡ map (λ r. if p r then f r else r) t
  -- … and of columns under one, unless the index excludes the result.
  pub update_unique_lem :
      {A : Type 0} (clash : A → A → Bool) (p : A → Bool) (f : A → A) (t : List A)
      → update_unique clash p f t ≡ (
          if has_clash clash (map (λ r. if p r then f r else r) t)
          then none
          else some (map (λ r. if p r then f r else r) t))
  pub delete_lem : {A : Type 0} (p : A → Bool) (t : List A) → delete p t ≡ filter (λ r. not (p r)) t
  -- ORDER BY gives the same rows in the order of the columns, OFFSET and LIMIT a window of them,
  -- `count()` their number.
  pub order_by : {A : Type 0} → (A → A → Bool) → List A → List A
  pub count-order_by :
      {A : Type 0} (le : A → A → Bool) (p : A → Bool) (t : List A)
      → count p (order_by le t) ≡ count p t
  pub order_by-Ordered :
      {A : Type 0} (le : A → A → Bool) (t : List A)
      → ((a b : A) → le a b ≡ false → le b a ≡ true)
      → Ordered le (order_by le t)
  -- The rows of the n-th execution of a SELECT, in the order of its ORDER BY if it has one: rows
  -- that tie may come in another order each time.
  pub query_order : {A : Type 0} → ℕ → Option (A → A → Bool) → List A → List A
  pub count-query_order :
      {A : Type 0} (n : ℕ) (o : Option (A → A → Bool)) (p : A → Bool) (t : List A)
      → count p (query_order n o t) ≡ count p t
  pub query_order-Ordered :
      {A : Type 0} (n : ℕ) (le : A → A → Bool) (t : List A)
      → ((a b : A) → le a b ≡ false → le b a ≡ true)
      → Ordered le (query_order n (some le) t)
  pub offset_limit : {A : Type 0} → ℕ → ℕ → List A → List A
  pub offset_limit_lem :
      {A : Type 0} (offset limit : ℕ) (t : List A)
      → offset_limit offset limit t ≡ take limit (drop offset t)
  pub count_rows : {A : Type 0} → List A → ℕ
  pub count_rows_lem : {A : Type 0} (t : List A) → count_rows t ≡ length t
  -- `SELECT key, count() … GROUP BY key`: one row for each key that occurs, in any order.
  pub group_count : {A K : Type 0} → (K → K → Bool) → (A → K) → List A → List (K × ℕ)
  pub group_count_lem :
      {A K : Type 0} (same : K → K → Bool) (f : A → K) (k : K) (t : List A)
      → ((i j : K) → (same i j ≡ true) ↔ (i ≡ j))
      → filter (λ r. same r.0 k) (group_count same f t)
        ≡ (if any (λ a. same (f a) k) t then (k, count (λ a. same (f a) k) t) ∷ [] else [])
  -- An inner join, as the pairs of rows that match.
  pub join_rows : {A B : Type 0} → (A → B → Bool) → List A → List B → List (A × B)
  -- `date.today()` as the number of a day.
  pub today : ℕ → ℕ
  -- The order of the texts of a column.
  pub collate : String → String → Bool
  pub collate_total : (a b : String) → collate a b ≡ false → collate b a ≡ true
  -- The order of a column with nulls.
  pub nullable_le : Option ℕ → Option ℕ → Bool
  -- Whether the database enforces foreign keys (SQLite does not by default).
  pub foreign_keys : Bool
  -- `column ILIKE pattern`, the column first.
  pub ilike : String → String → Bool
  -- `uuid_utils.uuid7()`, `datetime.now(UTC)`, `secrets.token_urlsafe(n)`.
  pub uuid7 : ℕ → ℕ
  pub utcnow : ℕ → ℕ
  -- `str.lower` and `str.strip`.
  pub lower : String → String
  pub strip : String → String
  -- `uuid.uuid4().hex`, and `Path(name).suffix`.
  pub uuid4_hex : ℕ → String
  pub path_suffix : String → String
  pub token_urlsafe : ℕ → ℕ → String
  -- `bcrypt.hashpw` with a fresh salt, `bcrypt.checkpw`, both `none` for a ValueError, which newer
  -- releases raise for more than 72 bytes.
  pub hashpw : String → ℕ → Option String
  pub checkpw : String → String → Option Bool
  pub checkpw_hashpw :
      (password hashed : String) (n : ℕ)
      → hashpw password n ≡ some hashed
      → checkpw password hashed ≡ some true
  -- The text that pydantic's `EmailStr` makes of an e-mail that it accepts.
  pub normalize_email : String → String
  -- `hashlib.sha256(…).hexdigest()`.
  pub sha256 : String → String
  -- `str(uuid)` and `uuid.UUID(text)`, `none` for a ValueError.
  pub uuid_text : ℕ → String
  pub parse_uuid : String → Option ℕ
  pub parse_uuid-uuid_text : (n : ℕ) → parse_uuid (uuid_text n) ≡ some n
  -- `jwt.encode(payload, key, algorithm)`; `jwt.decode` at a time, `none` for a JWTError. The text
  -- of an encoded token is looked into by the library only. Decoding rounds `exp` to seconds.
  pub Jwt : Type 0
  pub jwt_encode : Claims → String → String → Jwt
  pub jwt_decode : Jwt → String → String → ℕ → Option Claims
  pub jwt_decode-jwt_encode :
      (c : Claims) (key algorithm : String) (now : ℕ)
      → now ≤ c.exp
      → (d : Claims) × (jwt_decode (jwt_encode c key algorithm) key algorithm now ≡ some d)
        × (d.sub ≡ c.sub)
        × (d.role ≡ c.role)
        × (d.type ≡ c.type)
  -- The characters that `\d` matches, of which the ASCII ones are the ten digits.
  pub is_decimal : ℕ → Bool
  pub is_decimal_ascii : (c : ℕ) → c < 128 → is_decimal c ≡ (leb 48 c && leb c 57)
  -- Floats as a column holds them: linearly ordered. `m / n` of two numbers, `a * b` and
  -- `round(a, digits)`.
  pub Float : Type 0
  pub lt_float : Float → Float → Bool
  pub add_float : Float → Float → Float
  pub to_float : ℕ → Float
  pub true_div : ℕ → ℕ → Float
  pub mul_float : Float → Float → Float
  pub round_float : Float → ℕ → Float
  pub lt_float_irrefl : (a : Float) → lt_float a a ≡ false
  pub lt_float_trans :
      (a b c : Float) → lt_float a b ≡ true → lt_float b c ≡ true → lt_float a c ≡ true
  pub lt_float_cotrans :
      (a b c : Float) → lt_float a b ≡ false → lt_float b c ≡ false → lt_float a c ≡ false
  -- `max(column)` over rows.
  pub max_float : {A : Type 0} → (A → Float) → List A → Option Float
  pub max_float_none : {A : Type 0} (f : A → Float) (t : List A) → max_float f t ≡ none → t ≡ []
  pub max_float_above :
      {A : Type 0} (f : A → Float) (t : List A) (m : Float)
      → max_float f t ≡ some m
      → any (λ r. lt_float m (f r)) t ≡ false
  -- The text of a StaleDataError.
  pub stale_text : String
