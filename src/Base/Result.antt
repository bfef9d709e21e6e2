-- ===== src/Base/Result.antt =====
-- Rust's `Result`, with `?` as the bind of a do block, and the lemmas on conditionals by which an
-- invariant passes through a parser.
use mathlib.Core.Path.{◌≡◌, refl, subst, sym, ap}
use mathlib.Core.Bool.{Bool, true, false}
use mathlib.Core.Option.{Option, none, some}
use phobos_wg_client.Base.Tests.{if◌then◌else◌}

pub data Result {ℓ κ} (E : Type ℓ) (A : Type κ) : Type (ℓ ⊔ κ) where
  ok : A → Result E A
  err : E → Result E A

infixl 10 ◌>>=◌
abbrev pub ◌>>=◌ {ℓ κ μ} :
    {E : Type ℓ} {A : Type κ} {B : Type μ} → Result E A → (A → Result E B) → Result E B
ok a >>= f = f a
err e >>= f = err e

abbrev pub map_err {ℓ κ μ} :
    {E : Type ℓ} {F : Type κ} {A : Type μ} → (E → F) → Result E A → Result F A
map_err f (ok a) = ok a
map_err f (err e) = err (f e)

abbrev pub ok_or {ℓ κ} : {E : Type ℓ} {A : Type κ} → E → Option A → Result E A
ok_or e none = err e
ok_or e (some a) = ok a

-- P holds of the value, if there is one.
abbrev pub AllOk {ℓ κ μ} : {E : Type ℓ} {A : Type κ} → (A → Type μ) → Result E A → Type μ
AllOk P (ok a) = P a
AllOk P (err e) = Unit

abbrev pub AllSome {ℓ κ} : {A : Type ℓ} → (A → Type κ) → Option A → Type κ
AllSome P none = Unit
AllSome P (some a) = P a

pub if_preserves {ℓ κ} :
    {A : Type ℓ} (P : A → Type κ) (b : Bool) (x y : A)
    → (b ≡ true → P x)
    → (b ≡ false → P y)
    → P (if b then x else y)
if_preserves P true x y h k = h refl
if_preserves P false x y h k = k refl

pub bind_preserves {ℓ κ μ ν ξ} :
    {E : Type ℓ} {A : Type κ} {B : Type μ} (P : A → Type ν) (Q : B → Type ξ) (r : Result E A)
    (f : A → Result E B)
    → AllOk P r
    → ((a : A) → P a → AllOk Q (f a))
    → AllOk Q (r >>= f)
bind_preserves P Q (ok a) f h k = k a h
bind_preserves P Q (err e) f h k = tt

pub AllOk-eq {ℓ κ μ} :
    {E : Type ℓ} {A : Type κ} (P : A → Type μ) (r : Result E A) (a : A) → AllOk P r → r ≡ ok a → P a
AllOk-eq P r a h e = subst (AllOk P) e h

pub AllOk-Unit {ℓ κ} : {E : Type ℓ} {A : Type κ} (r : Result E A) → AllOk (λ a. Unit {0}) r
AllOk-Unit (ok a) = tt
AllOk-Unit (err e) = tt

pub bind_cong {ℓ κ μ} :
    {E : Type ℓ} {A : Type κ} {B : Type μ} (r : Result E A) (f g : A → Result E B)
    → ((a : A) → f a ≡ g a)
    → (r >>= f) ≡ (r >>= g)
bind_cong (ok a) f g h = h a
bind_cong (err e) f g h = refl

pub AllOk-map {ℓ κ μ ν} :
    {E : Type ℓ} {A : Type κ} (P : A → Type μ) (Q : A → Type ν) (r : Result E A)
    → ((a : A) → P a → Q a)
    → AllOk P r
    → AllOk Q r
AllOk-map P Q (ok a) f h = f a h
AllOk-map P Q (err e) f h = tt

abbrev IsOk {ℓ κ} : {E : Type ℓ} {A : Type κ} → Result E A → Type 0
IsOk (ok a) = Unit
IsOk (err e) = ⊥

err-ok {ℓ κ} : {E : Type ℓ} {A : Type κ} (e : E) (a : A) → err e ≡ ok a → ⊥
err-ok e a h = subst IsOk (sym h) tt

-- A chain that succeeds: each of its steps does.
pub bind-ok {ℓ κ μ} :
    {E : Type ℓ} {A : Type κ} {B : Type μ} (r : Result E A) (f : A → Result E B) (b : B)
    → (r >>= f) ≡ ok b
    → (a : A) × (r ≡ ok a) × (f a ≡ ok b)
bind-ok (ok a) f b h = (a, refl, h)
bind-ok (err e) f b h = absurd (err-ok e b h)

ok-injective {ℓ κ} :
    {E : Type ℓ} {A : Type κ} (a b : A) → ◌≡◌ {A = Result E A} (ok a) (ok b) → a ≡ b
ok-injective a b h = subst (AllOk (λ x. a ≡ x)) h refl

pub map_err-ok {ℓ κ μ} :
    {E : Type ℓ} {F : Type κ} {A : Type μ} (f : E → F) (r : Result E A) (a : A)
    → map_err f r ≡ ok a
    → r ≡ ok a
map_err-ok f (ok b) a h = ap ok (ok-injective b a h)
map_err-ok f (err e) a h = absurd (err-ok (f e) a h)

-- What every outcome of the last step has, a chain has.
pub bind_all {ℓ κ μ ν} :
    {E : Type ℓ} {A : Type κ} {B : Type μ} (Q : B → Type ν) (r : Result E A) (f : A → Result E B)
    → ((a : A) → AllOk Q (f a))
    → AllOk Q (r >>= f)
bind_all Q (ok a) f h = h a
bind_all Q (err e) f h = tt
