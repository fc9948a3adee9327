-- ===== src/Prelude/Effects.antt =====
-- Python methods: they may raise, and what they wrote before stays written.
use Prim.Native.String.{String}
use mathlib.Core.Path.{◌≡◌, refl}
use mathlib.Core.Bool.{Bool, true, false}
use mathlib.Core.Logic.{◌⊎◌, inl, inr}
use eeebot_self_evolving.Prelude.Tests.{if◌then◌else◌}

-- An `Exception` with its text, or the `CancelledError` that `except Exception` lets through.
pub data Error : Type 0 where
  exception : String → Error
  cancelled : Error

pub data Result (A : Type 0) : Type 0 where
  ok : A → Result A
  raise : Error → Result A

abbrev pub Method : Type 0 → Type 0 → Type 0
Method S A = S → Result A × S

module _ {S A : Type 0} where
  abbrev pub pure : A → Method S A
  pure a s = (ok a, s)

  abbrev pub throw : Error → Method S A
  throw e s = (raise e, s)

module _ {S A B : Type 0} where
  abbrev pub and_then : Result A → (A → Method S B) → Method S B
  and_then (ok a) f s = f a s
  and_then (raise e) f s = (raise e, s)

  infixl 5 ◌>>=◌ ◌>>◌
  abbrev pub ◌>>=◌ : Method S A → (A → Method S B) → Method S B
  ◌>>=◌ m f s = and_then (m s).0 f (m s).1

  abbrev pub ◌>>◌ : Method S A → Method S B → Method S B
  ◌>>◌ m n = m >>= λ _. n

  and_then_inv :
      (p : Result A × S) (f : A → Method S B) {b : B}
      → (and_then p.0 f p.1).0 ≡ ok b
      → (a : A) × (t : S) × (p ≡ (ok a, t)) × (and_then p.0 f p.1 ≡ f a t)
  and_then_inv (ok a, t) f h = (a, t, refl, refl)
  and_then_inv (raise e, t) f h = cc

  -- A chain that returns has a first step that returns, and goes on from where that ends.
  pub bind_inv :
      (m : Method S A) (f : A → Method S B) (s : S) {b : B}
      → ((m >>= f) s).0 ≡ ok b
      → (a : A) × (t : S) × (m s ≡ (ok a, t)) × ((m >>= f) s ≡ f a t)
  bind_inv m f s h = and_then_inv (m s) f h

-- `m` keeps `P`, whether it returns or raises.
pub record Keeps {S A : Type 0} (P : S → Type 0) (m : Method S A) : Type 0 where
  pub at : (s : S) → P s → P (m s).1

module _ {S A B : Type 0} {P : S → Type 0} where
  Keeps-and_then :
      (r : Result A) (f : A → Method S B) (s : S)
      → ((a : A) → Keeps P (f a))
      → P s
      → P (and_then r f s).1
  Keeps-and_then (ok a) f s kf h = (kf a).at s h
  Keeps-and_then (raise e) f s kf h = h

  pub Keeps-bind :
      (m : Method S A) (f : A → Method S B)
      → Keeps P m
      → ((a : A) → Keeps P (f a))
      → Keeps P (m >>= f)
  Keeps-bind m f km kf = record { at = λ s h. Keeps-and_then (m s).0 f (m s).1 kf (km.at s h) }

module _ {S A : Type 0} {P : S → Type 0} where
  pub Keeps-pure : (a : A) → Keeps P (pure {S = S} a)
  Keeps-pure a = record { at = λ s h. h }

  pub Keeps-if :
      (b : Bool) (m n : Method S A) → Keeps P m → Keeps P n → Keeps P (if b then m else n)
  Keeps-if true m n h k = h
  Keeps-if false m n h k = k

  pub Keeps-throw : (e : Error) → Keeps P (throw {S = S} {A = A} e)
  Keeps-throw e = record { at = λ s h. h }

module _ {S A B : Type 0} where
  -- A chain goes on from where its first step ends.
  pub bind_ok :
      (m : Method S A) (f : A → Method S B) (s : S) {a : A} {t : S}
      → m s ≡ (ok a, t)
      → (m >>= f) s ≡ f a t
  bind_ok m f s e = rw e refl

  pub bind_raise :
      (m : Method S A) (f : A → Method S B) (s : S) {x : Error} {t : S}
      → m s ≡ (raise x, t)
      → (m >>= f) s ≡ (raise x, t)
  bind_raise m f s e = rw e refl

pub Result-cases :
    {A : Type 0} (r : Result A) → ((a : A) × (r ≡ ok a)) ⊎ ((e : Error) × (r ≡ raise e))
Result-cases (ok a) = inl (a, refl)
Result-cases (raise e) = inr (e, refl)

-- A result has one value.
pub ok_inj : {A : Type 0} {a b : A} → ok a ≡ ok b → a ≡ b
ok_inj h = cc
