-- ===== src/Gate/Values.antt =====
-- Checks of single values that documents of the API hold: `_json_array`, `_positive_integer`,
-- `_login`, `_initiator_login` and `_utc_z_seconds`.
use devpath_shared.Base.{
  ℕ, ◌+◌, ◌-◌, ◌*◌, ◌%◌, ◌<◌, ◌≡◌, ◌≢◌, refl, ◌↔◌, ◌⊎◌, Bool, true, false, ◌&&◌, ◌||◌, not, Option,
  none, some, List, [], ◌∷◌, String, ◌<>◌, ◌==◌, ◌==ˢ◌, eq_iff, leb, ltb, if◌then◌else◌, arith,
}
use devpath_shared.Base.Integer.{pos, negsuc}
use devpath_shared.Base.Text.{codes}
use devpath_shared.Base.Pattern.{
  Pattern, done, piece, times, literal, fullmatch, is_digit, is_alnum,
}
use devpath_shared.Base.Result.{Result, ok, err, refused, ◌>>=◌, ◌>>◌, ensure, or_refuse, IsOk}
use devpath_shared.Json.{
  Json, null, boolean, integer, float, text, array, object, constant, as_list,
}
use devpath_shared.Runtime.{Bytes, Runtime}
use devpath_shared.Gate.Format.{json_value}

abbrev pub gitops_repository : String
gitops_repository = "DevPathAi/devpath-gitops"

abbrev pub gitops_write_app_slug : String
gitops_write_app_slug = "devpath-gitops-release"

abbrev pub gitops_ref : String
gitops_ref = "refs/heads/main"

unfoldable pub json_array : Runtime → Bytes → String → ℕ → Result (List Json)
json_array R raw label maximum = do
  document ← json_value R raw label maximum
  or_refuse (as_list document) (label <> " root must be an array")

-- `type(value) is int and value > 0`, with the value.
abbrev pub as_positive : Json → Option ℕ
as_positive (integer (pos n)) = if ltb 0 n then some n else none
as_positive _ = none

unfoldable pub positive_integer : Json → String → Result ℕ
positive_integer v label = or_refuse (as_positive v) (label <> " must be a positive integer")

-- `value is True` and `value is False`
abbrev pub is_boolean : Json → Bool → Bool
is_boolean (boolean true) b = b
is_boolean (boolean false) b = if b then false else true
is_boolean _ b = false

-- `type(value) is int and value == n`
abbrev pub is_int : Json → ℕ → Bool
is_int (integer (pos m)) n = m == n
is_int _ n = false

-- `values[0]` of a list of length one
abbrev pub single {ℓ} : {A : Type ℓ} → List A → Option A
single [] = none
single (x ∷ []) = some x
single (x ∷ y ∷ xs) = none

abbrev is_login_inner : ℕ → Bool
is_login_inner c = c == b'-' || is_alnum c

-- `^[A-Za-z0-9](?:[A-Za-z0-9-]{0,37}[A-Za-z0-9])?$`: without the group, or with it.
unfoldable pub is_login : String → Bool
is_login s =
    fullmatch (piece is_alnum 1 1 done) s
    || fullmatch (piece is_alnum 1 1 (piece is_login_inner 0 37 (piece is_alnum 1 1 done))) s

unfoldable pub login : Json → String → Result String
login (text s) label = do ensure (is_login s) (label <> " is not a canonical GitHub login"); ok s
login _ label = err (refused (label <> " is not a canonical GitHub login"))

-- The one member of `AUTOMATION_INITIATOR_LOGINS`.
abbrev pub automation_login : String
automation_login = "github-actions[bot]"

unfoldable pub initiator_login : Json → String → Result String
initiator_login (text s) label = if s ==ˢ automation_login then ok s else login (text s) label
initiator_login v label = login v label

-- `^[0-9]{4}-[0-9]{2}-[0-9]{2}T[0-9]{2}:[0-9]{2}:[0-9]{2}Z$`
unfoldable pub utc_z_pattern : Pattern
unfolding literal
utc_z_pattern = times 4 is_digit (
    literal "-" (
      times 2 is_digit (
        literal "-" (
          times 2 is_digit (
            literal "T" (
              times 2 is_digit (
                literal ":"
                  (times 2 is_digit (literal ":" (times 2 is_digit (literal "Z" done)))))))))))

abbrev is_leap_year : ℕ → Bool
is_leap_year y = (y % 4 == 0) && (not (y % 100 == 0) || (y % 400 == 0))

abbrev pub days_in_month : ℕ → ℕ → ℕ
days_in_month y m =
    if m == 2
    then (if is_leap_year y then 29 else 28)
    else (if (m == 4 || m == 6) || (m == 9 || m == 11) then 30 else 31)

-- What `datetime` accepts: its year starts at 1, and its minute has no leap second.
abbrev pub is_datetime : ℕ → ℕ → ℕ → ℕ → ℕ → ℕ → Bool
is_datetime year month day hour minute second =
    ltb 0 year
    && ((ltb 0 month && leb month 12) && (ltb 0 day && leb day (days_in_month year month)))
    && (ltb hour 24 && (ltb minute 60 && ltb second 60))

abbrev pub digits : ℕ → List ℕ → ℕ
digits n [] = n
digits n (c ∷ s) = digits (n * 10 + (c - b'0')) s

-- `datetime.strptime(value, "%Y-%m-%dT%H:%M:%SZ")` of a text that matches the pattern.
unfoldable pub is_timestamp : List ℕ → Bool
is_timestamp
      (y₁ ∷ y₂ ∷ y₃ ∷ y₄ ∷ _ ∷ m₁ ∷ m₂ ∷ _ ∷ d₁ ∷ d₂ ∷ _ ∷ h₁ ∷ h₂ ∷ _ ∷ n₁ ∷ n₂ ∷ _ ∷ s₁ ∷ s₂
        ∷ rest) =
    is_datetime (digits 0 (y₁ ∷ y₂ ∷ y₃ ∷ y₄ ∷ [])) (digits 0 (m₁ ∷ m₂ ∷ []))
      (digits 0 (d₁ ∷ d₂ ∷ [])) (digits 0 (h₁ ∷ h₂ ∷ [])) (digits 0 (n₁ ∷ n₂ ∷ []))
      (digits 0 (s₁ ∷ s₂ ∷ []))
is_timestamp _ = false

unfoldable pub utc_z_seconds : Json → String → Result String
utc_z_seconds (text s) label = do
  ensure (fullmatch utc_z_pattern s) (label <> " must be UTC-Z seconds")
  ensure (is_timestamp (codes s)) (label <> " is not a real UTC timestamp")
  ok s
utc_z_seconds _ label = err (refused (label <> " must be UTC-Z seconds"))

leap_day : IsOk (utc_z_seconds (text "2028-02-29T23:59:59Z") "t")
unfolding utc_z_seconds fullmatch utc_z_pattern is_timestamp codes
leap_day = (_, refl)

no_leap_day : (r : String) → utc_z_seconds (text "2100-02-29T23:59:59Z") "t" ≢ ok r
unfolding utc_z_seconds fullmatch utc_z_pattern is_timestamp codes
no_leap_day r h = cc

module _ (label : String) where
  pub positive_integer-eq_ok :
      (v : Json) {n : ℕ} → positive_integer v label ≡ ok n → (v ≡ integer (pos n)) × (0 < n)
  unfolding positive_integer
  positive_integer-eq_ok (integer (pos m)) h = ground arith
  positive_integer-eq_ok (integer (negsuc m)) h = absurd (ground arith)
  positive_integer-eq_ok null h = absurd (ground arith)
  positive_integer-eq_ok (boolean b) h = absurd (ground arith)
  positive_integer-eq_ok (float n r) h = absurd (ground arith)
  positive_integer-eq_ok (text s) h = absurd (ground arith)
  positive_integer-eq_ok (array xs) h = absurd (ground arith)
  positive_integer-eq_ok (object d) h = absurd (ground arith)
  positive_integer-eq_ok (constant s) h = absurd (ground arith)

  pub login-eq_ok :
      (v : Json) {s : String} → login v label ≡ ok s → (v ≡ text s) × (is_login s ≡ true)
  unfolding login
  login-eq_ok (text t) h = ground arith
  login-eq_ok null h = cc
  login-eq_ok (boolean b) h = cc
  login-eq_ok (integer n) h = cc
  login-eq_ok (float n r) h = cc
  login-eq_ok (array xs) h = cc
  login-eq_ok (object d) h = cc
  login-eq_ok (constant s) h = cc

  pub initiator_login-eq_ok :
      (v : Json) {s : String}
      → initiator_login v label ≡ ok s
      → (v ≡ text s) × ((s ≡ automation_login) ⊎ (is_login s ≡ true))
  unfolding initiator_login login
  initiator_login-eq_ok (text t) h = ground (arith, eq_iff t automation_login)
  initiator_login-eq_ok null h = cc
  initiator_login-eq_ok (boolean b) h = cc
  initiator_login-eq_ok (integer n) h = cc
  initiator_login-eq_ok (float n r) h = cc
  initiator_login-eq_ok (array xs) h = cc
  initiator_login-eq_ok (object d) h = cc
  initiator_login-eq_ok (constant s) h = cc

  pub utc_z_seconds-eq_ok :
      (v : Json) {s : String}
      → utc_z_seconds v label ≡ ok s
      → (v ≡ text s) × (fullmatch utc_z_pattern s ≡ true) × (is_timestamp (codes s) ≡ true)
  unfolding utc_z_seconds
  utc_z_seconds-eq_ok (text t) h = ground arith
  utc_z_seconds-eq_ok null h = cc
  utc_z_seconds-eq_ok (boolean b) h = cc
  utc_z_seconds-eq_ok (integer n) h = cc
  utc_z_seconds-eq_ok (float n r) h = cc
  utc_z_seconds-eq_ok (array xs) h = cc
  utc_z_seconds-eq_ok (object d) h = cc
  utc_z_seconds-eq_ok (constant s) h = cc

pub is_boolean_iff : (v : Json) (b : Bool) → (is_boolean v b ≡ true) ↔ (v ≡ boolean b)
is_boolean_iff (boolean true) true = ground arith
is_boolean_iff (boolean true) false = ground arith
is_boolean_iff (boolean false) true = ground arith
is_boolean_iff (boolean false) false = ground arith
is_boolean_iff _ b = ground arith

pub is_int_iff : (v : Json) (n : ℕ) → (is_int v n ≡ true) ↔ (v ≡ integer (pos n))
is_int_iff (integer (pos m)) n = ground arith
is_int_iff (integer (negsuc m)) n = ground arith
is_int_iff _ n = ground arith

pub single-eq {ℓ} : {A : Type ℓ} (xs : List A) {x : A} → single xs ≡ some x → xs ≡ x ∷ []
single-eq (y ∷ []) h = ground arith
single-eq [] h = cc
single-eq (y ∷ z ∷ xs) h = cc
