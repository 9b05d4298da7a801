-- ===== src/Common/Outcome.antt =====
-- What a C++ call may do: return, act outside the rules of the language (an access out of the
-- bounds of an array, a read of an indeterminate value), or wait for ever.
use mathlib.Core.Path.{◌≡◌, refl}
use mathlib.Core.Logic.{◌≢◌}

pub data Outcome {ℓ} (A : Type ℓ) : Type ℓ where
  done : A → Outcome A
  fault : Outcome A
  hang : Outcome A

infixl 5 ◌>>=◌
abbrev pub ◌>>=◌ {ℓ κ} : {A : Type ℓ} {B : Type κ} → Outcome A → (A → Outcome B) → Outcome B
done a >>= f = f a
fault >>= f = fault
hang >>= f = hang

-- A call that returns, with its result.
abbrev pub Returns {ℓ κ} : {A : Type ℓ} → (A → Type κ) → Outcome A → Type κ
Returns P (done a) = P a
Returns P fault = Unit
Returns P hang = Unit

-- A call that returns at all.
abbrev pub Completes {ℓ} : {A : Type ℓ} → Outcome A → Type 0
Completes (done a) = Unit
Completes fault = ⊥
Completes hang = ⊥

-- A sequence returns if its first call returns a value after which the second returns.
pub Completes-bind {ℓ κ} :
    {A : Type ℓ} {B : Type κ} (m : Outcome A) (f : A → Outcome B)
    → Completes m
    → ((a : A) → m ≡ done a → Completes (f a))
    → Completes (m >>= f)
Completes-bind (done a) f c g = g a refl
Completes-bind fault f c g = c
Completes-bind hang f c g = c

-- A sequence whose second call faults on every value faults, unless its first call hangs.
pub bind-fault {ℓ κ} :
    {A : Type ℓ} {B : Type κ} (m : Outcome A) (f : A → Outcome B)
    → m ≢ hang
    → ((a : A) → f a ≡ fault)
    → (m >>= f) ≡ fault
bind-fault (done a) f h g = g a
bind-fault fault f h g = refl
bind-fault hang f h g = absurd (h refl)

pub ne_hang_of_Completes {ℓ} : {A : Type ℓ} (m : Outcome A) → Completes m → m ≢ hang
ne_hang_of_Completes (done a) c e = cc
ne_hang_of_Completes fault c e = c
ne_hang_of_Completes hang c e = c

pub bind-done {ℓ} : {A : Type ℓ} (m : Outcome A) → (m >>= done) ≡ m
bind-done (done a) = refl
bind-done fault = refl
bind-done hang = refl

pub bind_assoc {ℓ κ μ} :
    {A : Type ℓ} {B : Type κ} {C : Type μ} (m : Outcome A) (f : A → Outcome B) (g : B → Outcome C)
    → ((m >>= f) >>= g) ≡ (m >>= λ a. f a >>= g)
bind_assoc (done a) f g = refl
bind_assoc fault f g = refl
bind_assoc hang f g = refl

pub bind-congr {ℓ κ} :
    {A : Type ℓ} {B : Type κ} (m : Outcome A) {f g : A → Outcome B}
    → ((a : A) → f a ≡ g a)
    → (m >>= f) ≡ (m >>= g)
bind-congr (done a) h = h a
bind-congr fault h = refl
bind-congr hang h = refl

-- What holds of every result of the second call holds of the result of the sequence.
pub Returns-bind {ℓ κ μ} :
    {A : Type ℓ} {B : Type κ} (P : B → Type μ) (m : Outcome A) (f : A → Outcome B)
    → ((a : A) → m ≡ done a → Returns P (f a))
    → Returns P (m >>= f)
Returns-bind P (done a) f h = h a refl
Returns-bind P fault f h = tt
Returns-bind P hang f h = tt

pub Returns-map {ℓ κ μ} :
    {A : Type ℓ} (P : A → Type κ) (Q : A → Type μ) (m : Outcome A)
    → ((a : A) → P a → Q a)
    → Returns P m
    → Returns Q m
Returns-map P Q (done a) f h = f a h
Returns-map P Q fault f h = tt
Returns-map P Q hang f h = tt

-- A sequence, by what holds after its first call.
pub Returns-seq {ℓ κ μ ν} :
    {A : Type ℓ} {B : Type κ} (P : A → Type μ) (Q : B → Type ν) (m : Outcome A) (f : A → Outcome B)
    → Returns P m
    → ((a : A) → P a → Returns Q (f a))
    → Returns Q (m >>= f)
Returns-seq P Q (done a) f p h = h a p
Returns-seq P Q fault f p h = tt
Returns-seq P Q hang f p h = tt

-- What a call that returns gives is what it is known to return.
pub Returns-self {ℓ κ} :
    {A : Type ℓ} (P : A → Type κ) (m : Outcome A) → ((a : A) → m ≡ done a → P a) → Returns P m
Returns-self P (done a) h = h a refl
Returns-self P fault h = tt
Returns-self P hang h = tt

pub Returns-and {ℓ κ μ} :
    {A : Type ℓ} (P : A → Type κ) (Q : A → Type μ) (m : Outcome A)
    → Returns P m
    → Returns Q m
    → Returns (λ a. P a × Q a) m
Returns-and P Q (done a) p q = (p, q)
Returns-and P Q fault p q = tt
Returns-and P Q hang p q = tt
