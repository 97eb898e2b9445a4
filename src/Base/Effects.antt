-- ===== src/Base/Effects.antt =====
-- What running a C function comes to. Every function of the library is modelled as returning one,
-- so that a theorem which says `done` excludes undefined behaviour and a failed assertion.
use Prim.Native.Nat.{ℕ, zero, suc, ◌<◌}
use mathlib.Core.List.{List, [], ◌∷◌}
use bitstream_h.Base.Lists.{length, set, get_elem?}
use native.Mathlib.Omega.{arith}
use bitstream_h.Base.Tests.{ltb, if◌then◌else◌, lt→ltb}
use mathlib.Core.Path.{◌≡◌, refl}
use mathlib.Core.Bool.{Bool, true, false}
use mathlib.Core.Option.{Option, none, some}

-- `undefined`: an access out of bounds, a 64-bit shift by 64 or more, or a division by zero.
-- `aborted`: a failed `assert`. `stuck`: a loop of the model ran out of fuel.
pub data Outcome {ℓ} (A : Type ℓ) : Type ℓ where
  done : A → Outcome A
  undefined : Outcome A
  aborted : Outcome A
  stuck : Outcome A

infixl 5 ◌>>=◌
abbrev pub ◌>>=◌ {ℓ κ} : {A : Type ℓ} {B : Type κ} → Outcome A → (A → Outcome B) → Outcome B
done a >>= f = f a
undefined >>= f = undefined
aborted >>= f = aborted
stuck >>= f = stuck

infixl 5 ◌>>◌
abbrev pub ◌>>◌ {ℓ} : {B : Type ℓ} → Outcome (Unit {0}) → Outcome B → Outcome B
m >> k = m >>= λ _. k

-- `assert (b)`
abbrev pub assert : Bool → Outcome (Unit {0})
assert true = done tt
assert false = aborted

-- A memory access that the model looks up.
abbrev pub access {ℓ} : {A : Type ℓ} → Option A → Outcome A
access none = undefined
access (some a) = done a

-- Total correctness: the function returns, and its result satisfies `P`.
pub record Returns {ℓ κ} {A : Type ℓ} (m : Outcome A) (P : A → Type κ) : Type (ℓ ⊔ κ) where
  pub result : A
  pub returns : m ≡ done result
  pub holds : P result

pub done-Returns {ℓ κ} : {A : Type ℓ} {P : A → Type κ} (a : A) → P a → Returns (done a) P
done-Returns a p = record { result = a; returns = refl; holds = p }

-- The rule of sequencing.
pub >>=-Returns {ℓ κ ι μ} :
    {A : Type ℓ} {B : Type κ} {m : Outcome A} {f : A → Outcome B} {P : A → Type ι} {Q : B → Type μ}
    → Returns m P
    → ((a : A) → P a → Returns (f a) Q)
    → Returns (m >>= f) Q
>>=-Returns r k = rw (r.returns, ◌>>=◌) (k r.result r.holds)

-- What holds of the rest holds of the whole, for any statement about runs.
pub >>=-leads {ℓ κ ι μ} :
    {A : Type ℓ} {B : Type κ} {m : Outcome A} {f : A → Outcome B} {P : A → Type ι}
    (Q : Outcome B → Type μ)
    → Returns m P
    → ((a : A) → P a → Q (f a))
    → Q (m >>= f)
>>=-leads Q r k = rw (r.returns, ◌>>=◌) (k r.result r.holds)

-- The rule of consequence.
pub Returns_mono {ℓ κ ι} :
    {A : Type ℓ} {m : Outcome A} {P : A → Type κ} {Q : A → Type ι}
    → Returns m P
    → ((a : A) → P a → Q a)
    → Returns m Q
Returns_mono r k = record { result = r.result; returns = r.returns; holds = k r.result r.holds }

-- A store into an array.
abbrev pub store {ℓ} : {A : Type ℓ} → List A → ℕ → A → Outcome (List A)
store a i x = if ltb i (length a) then done (set a i x) else undefined

pub >>=_assoc {ℓ κ ι} :
    {A : Type ℓ} {B : Type κ} {C : Type ι} (m : Outcome A) (f : A → Outcome B) (g : B → Outcome C)
    → (m >>= f >>= g) ≡ (m >>= λ a. f a >>= g)
>>=_assoc (done a) f g = refl
>>=_assoc undefined f g = refl
>>=_assoc aborted f g = refl
>>=_assoc stuck f g = refl

-- Programs that go on alike are alike.
pub >>=_cong {ℓ κ} :
    {A : Type ℓ} {B : Type κ} (m : Outcome A) {f g : A → Outcome B}
    → ((a : A) → f a ≡ g a)
    → (m >>= f) ≡ (m >>= g)
>>=_cong (done a) h = h a
>>=_cong undefined h = refl
>>=_cong aborted h = refl
>>=_cong stuck h = refl

pub store-set {ℓ} :
    {A : Type ℓ} (a : List A) (i : ℕ) (x : A) → i < length a → store a i x ≡ done (set a i x)
store-set a i x h = rw (lt→ltb i (length a) h) refl

-- The rule of the conditional.
pub if-Returns {ℓ κ} :
    {A : Type ℓ} {P : A → Type κ} {x y : Outcome A} (b : Bool)
    → (b ≡ true → Returns x P)
    → (b ≡ false → Returns y P)
    → Returns (if b then x else y) P
if-Returns true t f = t refl
if-Returns false t f = f refl

-- An access below the length finds an element.
pub access-Returns {ℓ} :
    {A : Type ℓ} (xs : List A) (i : ℕ)
    → i < length xs
    → Returns (access (get_elem? xs i)) (λ x. get_elem? xs i ≡ some x)
access-Returns [] i h = absurd (omega arith)
access-Returns (x ∷ xs) zero h = done-Returns x refl
access-Returns (x ∷ xs) (suc i) h = access-Returns xs i (omega arith)
