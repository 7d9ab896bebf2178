-- ===== src/Result.antt =====
-- What a Go function gives back: its values with a nil error, an error, or a panic. An error is its
-- message, as `err.Error()` shows it; a panic is the runtime's message.
use nginx_k8s_loadbalancer.Base.{arith, ap, String, ◌≡◌, refl, ◌⊎◌, inl, inr, Option, none, some}

abbrev pub Error : Type 0
Error = String

pub data Result {ℓ} (A : Type ℓ) : Type ℓ where
  ok : A → Result A
  err : Error → Result A
  panic : String → Result A

-- `if err != nil { return …, wrap(err) }`
abbrev pub wrapped {ℓ} : {A : Type ℓ} → (Error → Error) → Result A → Result A
wrapped f (ok a) = ok a
wrapped f (err e) = err (f e)
wrapped f (panic p) = panic p

infixl 5 ◌>>=◌ ◌>>◌
abbrev pub ◌>>=◌ {ℓ κ} :
    {Value : Type ℓ} {Next : Type κ} → Result Value → (Value → Result Next) → Result Next
panic p >>= next = panic p
err e >>= next = err e
ok value >>= next = next value

abbrev pub ◌>>◌ {ℓ} : {Next : Type ℓ} → Result (Unit {0}) → Result Next → Result Next
first >> second = first >>= λ _. second

-- A slice index or a slicing that is out of range.
abbrev pub or_panic {ℓ} : {A : Type ℓ} → Option A → String → Result A
or_panic none p = panic p
or_panic (some a) p = ok a

-- What a function of another library gives back: a value with a nil error, or an error.
pub data Reply (A : Type 0) : Type 0 where
  replied : A → Reply A
  refused : Error → Reply A

-- `if err != nil { return …, wrap(err) }` after such a call
abbrev pub answered : {A : Type 0} → (Error → Error) → Reply A → Result A
answered f (replied a) = ok a
answered f (refused e) = err (f e)

-- The same for a call that returns an error alone.
abbrev pub returned : (Error → Error) → Option Error → Result (Unit {0})
returned f none = ok tt
returned f (some e) = err (f e)

pub Reply-cases :
    {A : Type 0} (r : Reply A) → ((a : A) × (r ≡ replied a)) ⊎ ((e : Error) × (r ≡ refused e))
Reply-cases (replied a) = inl (a, refl)
Reply-cases (refused e) = inr (e, refl)

-- A chain that succeeds went through a first step that did.
pub >>=-eq-ok {ℓ κ} :
    {Value : Type ℓ} {Next : Type κ} (r : Result Value) (next : Value → Result Next) {out : Next}
    → (r >>= next) ≡ ok out
    → (value : Value) × (r ≡ ok value) × (next value ≡ ok out)
>>=-eq-ok (panic p) next h = cc
>>=-eq-ok (err e) next h = cc
>>=-eq-ok (ok value) next h = (value, refl, h)

pub ok-injective {ℓ} : {A : Type ℓ} {a b : A} → ok a ≡ ok b → a ≡ b
ok-injective h = cc

-- A call of another library that succeeds has replied.
pub answered-eq-replied :
    {A : Type 0} (f : Error → Error) (r : Reply A) (a : A) → answered f r ≡ ok a → r ≡ replied a
answered-eq-replied f (replied b) a h = ap replied (ok-injective h)
answered-eq-replied f (refused e) a h = absurd (ground arith)
