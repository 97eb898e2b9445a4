-- ===== src/Base/Endings.antt =====
-- Runs in states of which little is known: such a run may be undefined or abort, but it does not run
-- out of fuel, and what it gives, if it gives a result, satisfies a predicate.
use mathlib.Core.Path.{◌≡◌, refl, subst}
use mathlib.Core.Logic.{◌≢◌}
use mathlib.Core.Bool.{Bool, true, false}
use mathlib.Core.List.{List}
use Prim.Native.Nat.{ℕ, ◌<◌}
use bitstream_h.Base.Lists.{length, set}
use bitstream_h.Base.Tests.{if◌then◌else◌, ltb, ltb→lt}
use bitstream_h.Base.Effects.{Outcome, done, undefined, aborted, stuck, ◌>>=◌, store, assert}

pub data Ends {ℓ κ} {A : Type ℓ} (m : Outcome A) (P : A → Type κ) : Type (ℓ ⊔ κ) where
  gives : (a : A) → m ≡ done a → P a → Ends m P
  undefines : m ≡ undefined → Ends m P
  aborts : m ≡ aborted → Ends m P

pub done-Ends {ℓ κ} : {A : Type ℓ} {P : A → Type κ} (a : A) → P a → Ends (done a) P
done-Ends a p = gives a refl p

pub Ends_mono {ℓ κ ι} :
    {A : Type ℓ} {m : Outcome A} {P : A → Type κ} {Q : A → Type ι}
    → Ends m P
    → ((a : A) → P a → Q a)
    → Ends m Q
Ends_mono (gives a e p) k = gives a e (k a p)
Ends_mono (undefines e) k = undefines e
Ends_mono (aborts e) k = aborts e

-- The rule of sequencing.
pub >>=-Ends {ℓ κ ι μ} :
    {A : Type ℓ} {B : Type κ} {m : Outcome A} {f : A → Outcome B} {P : A → Type ι} {Q : B → Type μ}
    → Ends m P
    → ((a : A) → P a → Ends (f a) Q)
    → Ends (m >>= f) Q
>>=-Ends (gives a e p) k = rw (e, ◌>>=◌) (k a p)
>>=-Ends (undefines e) k = undefines (rw e refl)
>>=-Ends (aborts e) k = aborts (rw e refl)

-- The rule of the conditional.
pub if-Ends {ℓ κ} :
    {A : Type ℓ} {P : A → Type κ} {x y : Outcome A} (b : Bool)
    → (b ≡ true → Ends x P)
    → (b ≡ false → Ends y P)
    → Ends (if b then x else y) P
if-Ends true t f = t refl
if-Ends false t f = f refl

pub store-Ends {ℓ} :
    {A : Type ℓ} (a : List A) (i : ℕ) (x : A)
    → Ends (store a i x) (λ a'. (i < length a) × (a' ≡ set a i x))
store-Ends a i x =
    if-Ends (ltb i (length a)) (λ h. done-Ends _ (ltb→lt _ _ h, refl)) (λ h. undefines refl)

pub assert-Ends : (b : Bool) → Ends (assert b) (λ u. b ≡ true)
assert-Ends true = done-Ends tt refl
assert-Ends false = aborts refl

pub Ends-ne_stuck {ℓ κ} : {A : Type ℓ} {m : Outcome A} {P : A → Type κ} → Ends m P → m ≢ stuck
Ends-ne_stuck (gives a e p) h = cc
Ends-ne_stuck (undefines e) h = cc
Ends-ne_stuck (aborts e) h = cc

-- What is known of a run's end holds of the result that it is seen to give.
pub Ends-done {ℓ κ} :
    {A : Type ℓ} {m : Outcome A} {P : A → Type κ} {a : A} → Ends m P → m ≡ done a → P a
Ends-done {P = P} {a = a} (gives b e p) h = subst P (cc) p
Ends-done (undefines e) h = absurd (cc)
Ends-done (aborts e) h = absurd (cc)
