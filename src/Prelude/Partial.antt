-- ===== src/Prelude/Partial.antt =====
-- Code that may have undefined behaviour returns an Option: its bind, and postconditions of it.
use mathlib.Core.Path.{◌≡◌, refl, subst}
use mathlib.Core.Bool.{Bool, true, false}
use mathlib.Core.Option.{Option, none, some}
use unopp_server.Prelude.Tests.{if◌then◌else◌}

infixl 5 ◌>>=◌
abbrev pub ◌>>=◌ {ℓ κ} : {A : Type ℓ} {B : Type κ} → Option A → (A → Option B) → Option B
none >>= f = none
some a >>= f = f a

-- Whatever is returned meets P.
pub data Ensures {ℓ κ} {A : Type ℓ} (P : A → Type κ) : Option A → Type (ℓ ⊔ κ) where
  fails : Ensures P none
  returns : {a : A} → P a → Ensures P (some a)

pub Ensures-self {ℓ} : {A : Type ℓ} (m : Option A) → Ensures (λ a. m ≡ some a) m
Ensures-self none = fails
Ensures-self (some a) = returns refl

pub Ensures->>= {ℓ κ ℓ' κ'} :
    {A : Type ℓ} {B : Type κ} {P : A → Type ℓ'} {Q : B → Type κ'} {m : Option A} {f : A → Option B}
    → Ensures P m
    → ((a : A) → P a → Ensures Q (f a))
    → Ensures Q (m >>= f)
Ensures->>= fails k = fails
Ensures->>= (returns {a = x} h) k = k x h

-- The step before is known by its equation alone.
pub Ensures-bind {ℓ κ κ'} :
    {A : Type ℓ} {B : Type κ} {Q : B → Type κ'} (m : Option A) {f : A → Option B}
    → ((a : A) → m ≡ some a → Ensures Q (f a))
    → Ensures Q (m >>= f)
Ensures-bind m k = Ensures->>= (Ensures-self m) k

pub Ensures-mono {ℓ κ κ'} :
    {A : Type ℓ} {P : A → Type κ} {Q : A → Type κ'} {m : Option A}
    → Ensures P m
    → ((a : A) → P a → Q a)
    → Ensures Q m
Ensures-mono fails k = fails
Ensures-mono (returns {a = x} h) k = returns (k x h)

-- Both branches of a test.
pub Ensures-if {ℓ κ} :
    {A : Type ℓ} {P : A → Type κ} (b : Bool) {x y : Option A}
    → (b ≡ true → Ensures P x)
    → (b ≡ false → Ensures P y)
    → Ensures P (if b then x else y)
Ensures-if true h k = h refl
Ensures-if false h k = k refl

returned {ℓ κ} :
    {A : Type ℓ} (P : A → Type κ) (a : A) {m : Option A} → Ensures P m → m ≡ some a → P a
returned P a fails e = cc
returned P a (returns {a = x} h) e = subst P (cc) h

pub of_Ensures {ℓ κ} :
    {A : Type ℓ} {P : A → Type κ} {m : Option A} {a : A} → Ensures P m → m ≡ some a → P a
of_Ensures {P = P} {a = a} h e = returned P a h e

-- Something is returned.
abbrev pub Defined {ℓ} : {A : Type ℓ} → Option A → Type ℓ
Defined {A = A} m = (a : A) × (m ≡ some a)

pub Defined->>= {ℓ κ} :
    {A : Type ℓ} {B : Type κ} (m : Option A) (f : A → Option B) (a : A)
    → m ≡ some a
    → Defined (f a)
    → Defined (m >>= f)
Defined->>= m f a e d = rw e d

pub Ensures-× {ℓ κ κ'} :
    {A : Type ℓ} {P : A → Type κ} {Q : A → Type κ'} {m : Option A}
    → Ensures P m
    → Ensures Q m
    → Ensures (λ a. P a × Q a) m
Ensures-× fails q = fails
Ensures-× (returns {a = x} h) q = returns (h, of_Ensures q refl)
