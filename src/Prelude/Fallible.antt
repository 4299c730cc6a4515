-- ===== src/Prelude/Fallible.antt =====
-- Calls that may throw: a value, or what is thrown.
use mathlib.Core.Path.{◌≡◌, refl}
use mathlib.Core.Logic.{◌↔◌, ◌⊎◌, inl, inr}
use promptfoo_eval_harness.Prelude.Lists.{All}
use mathlib.Core.Bool.{Bool, true, false}
use mathlib.Core.List.{List, [], ◌∷◌}

pub data Result {ℓ κ} (E : Type ℓ) (A : Type κ) : Type (ℓ ⊔ κ) where
  err : E → Result E A
  ok : A → Result E A

-- `if (!test) throw e;`
abbrev pub guard {ℓ} : {E : Type ℓ} (test : Bool) (thrown : E) → Result E (Unit {0})
guard false thrown = err thrown
guard true thrown = ok tt

infixl 5 ◌>>◌ ◌>>=◌
abbrev pub ◌>>=◌ {ℓ κ μ} :
    {E : Type ℓ} {A : Type κ} {B : Type μ} (call : Result E A) (next : A → Result E B) → Result E B
err thrown >>= next = err thrown
ok value >>= next = next value

abbrev pub ◌>>◌ {ℓ κ} :
    {E : Type ℓ} {B : Type κ} (check : Result E (Unit {0})) (next : Result E B) → Result E B
check >> next = check >>= λ done. next

-- `for (const x of xs) check(x);`
abbrev pub each {ℓ κ} :
    {E : Type ℓ} {A : Type κ} → (A → Result E (Unit {0})) → List A → Result E (Unit {0})
each check [] = ok tt
each check (x ∷ xs) = do check x; each check xs

-- Where two calls in a row return, the first one did.
pub >>=-returned {ℓ κ μ} :
    {E : Type ℓ} {A : Type κ} {B : Type μ} (call : Result E A) (next : A → Result E B) {b : B}
    → (call >>= next) ≡ ok b
    → (value : A) × (call ≡ ok value) × (next value ≡ ok b)
>>=-returned (err thrown) next h = cc
>>=-returned (ok value) next h = (value, refl, h)

-- A loop of checks passes exactly when each of them does.
pub each_iff {ℓ κ} :
    {E : Type ℓ} {A : Type κ} (check : A → Result E (Unit {0})) (xs : List A)
    → (each check xs ≡ ok tt) ↔ All (λ x. check x ≡ ok tt) xs
each_iff check [] = (λ h. tt, λ h. refl)
each_iff check (x ∷ xs) = (
  λ h. let (u, e, rest) = >>=-returned (check x) _ h in (e, (each_iff check xs).0 rest),
  λ h. rw (h.0) ((each_iff check xs).1 h.1),
)

pub guard_iff {ℓ} : {E : Type ℓ} (b : Bool) (e : E) → (guard b e ≡ ok tt) ↔ (b ≡ true)
guard_iff true e = (λ h. refl, λ h. refl)
guard_iff false e = (λ h. cc, λ h. cc)

-- Two checks in a row.
pub >>-ok_iff {ℓ} :
    {E : Type ℓ} (m k : Result E (Unit {0})) → ((m >> k) ≡ ok tt) ↔ ((m ≡ ok tt) × (k ≡ ok tt))
>>-ok_iff (ok u) k = (λ h. (refl, h), λ h. h.1)
>>-ok_iff (err e) k = (λ h. cc, λ h. cc)

module _ {ℓ κ} {E : Type ℓ} {A : Type κ} where
  pub ok-injective : {a b : A} → ◌≡◌ {A = Result E A} (ok a) (ok b) → a ≡ b
  ok-injective h = cc

  pub Result-cases : (r : Result E A) → ((e : E) × (r ≡ err e)) ⊎ ((a : A) × (r ≡ ok a))
  Result-cases (err e) = inl (e, refl)
  Result-cases (ok a) = inr (a, refl)

  pub err-ne-ok : {e : E} {a : A} → ◌≡◌ {A = Result E A} (err e) (ok a) → ⊥
  err-ne-ok h = cc

pub each-guard_iff {ℓ κ μ} :
    {E : Type ℓ} {A : Type κ} (P : A → Type μ) (test : A → Bool) (e : A → E)
    → ((x : A) → (test x ≡ true) ↔ P x)
    → (xs : List A) → (each (λ x. guard (test x) (e x)) xs ≡ ok tt) ↔ All P xs
each-guard_iff P test e same [] = (λ h. tt, λ h. refl)
each-guard_iff P test e same (x ∷ xs) =
    let (first, last) = >>-ok_iff (guard (test x) (e x)) (each (λ y. guard (test y) (e y)) xs) in
    let (to, from) = guard_iff (test x) (e x) in
    let (later, back) = each-guard_iff P test e same xs in
    (
      λ h. ((same x).0 (to (first h).0), later (first h).1),
      λ h. last (from ((same x).1 h.0), back h.1),
    )

-- Two checks in a row pass exactly when what each of them stands for holds.
pub both_iff {ℓ κ μ} :
    {E : Type ℓ} (P : Type κ) (Q : Type μ) (m k : Result E (Unit {0}))
    → ((m ≡ ok tt) ↔ P)
    → ((k ≡ ok tt) ↔ Q)
    → ((m >> k) ≡ ok tt) ↔ (P × Q)
both_iff P Q m k (to, from) (into, out_of) =
    let (split, join) = >>-ok_iff m k in
    (λ h. (to (split h).0, into (split h).1), λ h. join (from h.0, out_of h.1))
