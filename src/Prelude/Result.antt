-- ===== src/Prelude/Result.antt =====
-- Python exceptions as values: a function that may raise returns a `Result`.
use mathlib.Core.Path.{◌≡◌, refl, ap, subst}
use Prim.Native.String.{String}

-- The exception classes that the modelled code raises itself, with their messages.
pub data Error : Type 0 where
  value_error key_error permission_error : String → Error

pub data Result {ℓ} (A : Type ℓ) : Type ℓ where
  ok : A → Result A
  raise : Error → Result A

infixl 5 ◌>>=◌
abbrev pub ◌>>=◌ {ℓ κ} : {A : Type ℓ} {B : Type κ} → Result A → (A → Result B) → Result B
ok a >>= f = f a
raise e >>= f = raise e

pub >>=-assoc {ℓ κ μ} :
    {A : Type ℓ} {B : Type κ} {C : Type μ} (m : Result A) (f : A → Result B) (g : B → Result C)
    → (m >>= f >>= g) ≡ (m >>= λ a. f a >>= g)
>>=-assoc (ok a) f g = refl
>>=-assoc (raise e) f g = refl

-- What every result of the continuation has, the composition has.
pub >>=-holds {ℓ κ μ} :
    {A : Type ℓ} {B : Type κ} (P : B → Type μ) (m : Result A) (f : A → Result B)
    → ((a : A) (b : B) → f a ≡ ok b → P b)
    → (b : B) → (m >>= f) ≡ ok b
    → P b
>>=-holds P (ok a) f h b e = h a b e
>>=-holds P (raise x) f h b e = cc

ok_or {ℓ} : {A : Type ℓ} → A → Result A → A
ok_or a (ok b) = b
ok_or a (raise e) = a

pub ok_injective {ℓ} : {A : Type ℓ} (a b : A) → ok a ≡ ok b → a ≡ b
unfolding ok_or
ok_injective a b h = ap (ok_or a) h

-- What a result has, every result equal to it has.
pub ok-holds {ℓ μ} : {A : Type ℓ} (P : A → Type μ) {a b : A} → P a → ok a ≡ ok b → P b
ok-holds P {a} {b} p h = subst P (ok_injective a b h) p

-- A composition that gives a result comes from a result.
pub >>=-inverts {ℓ κ} :
    {A : Type ℓ} {B : Type κ} (m : Result A) (f : A → Result B) (b : B)
    → (m >>= f) ≡ ok b
    → (a : A) × (m ≡ ok a) × (f a ≡ ok b)
>>=-inverts (ok a) f b h = (a, refl, h)
>>=-inverts (raise e) f b h = cc
