-- ===== src/Base/Outcome.antt =====
-- A Go call that may return an error or panic, and the answers of `infrastructure/future`.
use Prim.Native.Nat.{ℕ}
use Prim.Native.String.{String}
use mathlib.Core.Path.{◌≡◌, refl, ap}
use mathlib.Core.Option.{Option, none, some}
use mathlib.Core.List.{List, [], ◌∷◌}

-- future.ErrorCode.
pub data ErrorCode : Type 0 where
  bad_request forbidden not_found not_accepted conflict validation_error internal_error : ErrorCode

-- The number that each code has on the wire.
unfoldable pub status_number : ErrorCode → ℕ
status_number bad_request = 400
status_number forbidden = 403
status_number not_found = 404
status_number not_accepted = 406
status_number conflict = 409
status_number validation_error = 422
status_number internal_error = 500

-- IDataFuture: either the error is set, or the data.
pub data Reply {ℓ} (A : Type ℓ) : Type ℓ where
  value : A → Reply A
  failure : ErrorCode → Reply A

-- The errors that the modelled functions return.
pub data Error : Type 0 where
  -- decimal.NewFromString refused this text
  invalid_decimal : String → Error
  fid_mismatch : Error
  history_not_successful : Error
  replied : ErrorCode → Error

-- `panic` is a nil pointer dereference or an index out of range.
pub data Outcome {ℓ} (A : Type ℓ) : Type ℓ where
  ok : A → Outcome A
  err : Error → Outcome A
  panic : Outcome A

infixl 5 ◌>>=◌ ◌>>◌
abbrev pub ◌>>=◌ {ℓ μ} : {A : Type ℓ} {B : Type μ} → Outcome A → (A → Outcome B) → Outcome B
panic >>= go_on = panic
err why >>= go_on = err why
ok result >>= go_on = go_on result

abbrev pub ◌>>◌ {μ} : {B : Type μ} → Outcome (Unit {0}) → Outcome B → Outcome B
check >> go_on = check >>= λ _. go_on

-- A pointer that the code dereferences.
abbrev pub deref {ℓ} : {A : Type ℓ} → Option A → Outcome A
deref none = panic
deref (some a) = ok a

-- `for _, x := range xs { ys = append(ys, f(x)) }`, with the early return on an error.
unfoldable pub traverse {ℓ κ} :
    {A : Type ℓ} {B : Type κ} → (A → Outcome B) → List A → Outcome (List B)
traverse f [] = ok []
traverse f (x ∷ xs) = do y ← f x; ys ← traverse f xs; ok (y ∷ ys)

-- `if p != nil { y, err := f(*p); …; q = &y }`.
abbrev pub optional {ℓ κ} :
    {A : Type ℓ} {B : Type κ} → (A → Outcome B) → Option A → Outcome (Option B)
optional f none = ok none
optional f (some a) = do b ← f a; ok (some b)

-- A loop that changes its variables, with the early return.
unfoldable pub foldm {ℓ κ} :
    {S : Type ℓ} {A : Type κ} → (S → A → Outcome S) → S → List A → Outcome S
foldm f s [] = ok s
foldm f s (x ∷ xs) = f s x >>= λ s'. foldm f s' xs

-- A chain that succeeds had a first step that succeeded.
pub >>=-eq-ok {ℓ μ} :
    {A : Type ℓ} {B : Type μ} (first : Outcome A) (go_on : A → Outcome B) {last : B}
    → (first >>= go_on) ≡ ok last
    → (result : A) × (first ≡ ok result) × (go_on result ≡ ok last)
>>=-eq-ok panic go_on ends = cc
>>=-eq-ok (err why) go_on ends = cc
>>=-eq-ok (ok result) go_on ends = (result, refl, ends)

pub ok-injective {ℓ} : {A : Type ℓ} {a b : A} → ok a ≡ ok b → a ≡ b
ok-injective h = cc

pub some-injective {ℓ} : {A : Type ℓ} {a b : A} → some a ≡ some b → a ≡ b
some-injective h = cc

-- The next step of a chain whose first step succeeds.
pub >>=-ok {ℓ κ} :
    {A : Type ℓ} {B : Type κ} (m : Outcome A) (k : A → Outcome B) {a : A}
    → m ≡ ok a
    → (m >>= k) ≡ k a
>>=-ok m k h = ap (λ x. x >>= k) h

pub deref->>= {ℓ κ} :
    {A : Type ℓ} {B : Type κ} (o : Option A) (k : A → Outcome B) {a : A}
    → o ≡ some a
    → (deref o >>= k) ≡ k a
deref->>= o k h = ap (λ x. deref x >>= k) h

-- A chain whose first step panics.
pub >>=-panic {ℓ κ} :
    {A : Type ℓ} {B : Type κ} (m : Outcome A) (k : A → Outcome B) → m ≡ panic → (m >>= k) ≡ panic
>>=-panic m k h = ap (λ x. x >>= k) h

pub deref-none->>= {ℓ κ} :
    {A : Type ℓ} {B : Type κ} (o : Option A) (k : A → Outcome B)
    → o ≡ none
    → (deref o >>= k) ≡ panic
deref-none->>= o k h = ap (λ x. deref x >>= k) h
