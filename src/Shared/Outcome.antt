-- ===== src/Shared/Outcome.antt =====
-- How a call ends: with a value, with the `err` side of a neverthrow `Result`, or with a thrown
-- exception. What was written to the state before a throw stays written.
use stocka_server.Prelude.{
  ◌≡◌, refl, ap, ◌∙◌, Bool, true, false, Option, none, some, ◌⊎◌, inl, inr, if◌then◌else◌,
}

pub data Outcome (E A : Type 0) : Type 0 where
  ok : A → Outcome E A
  err : E → Outcome E A
  throw : E → Outcome E A

abbrev pub is_ok : {E A : Type 0} → Outcome E A → Bool
is_ok (ok _) = true
is_ok (err _) = false
is_ok (throw _) = false

-- Sequencing without a state: the constructors of value objects and models.
abbrev pub and_then : {E A B : Type 0} → Outcome E A → (A → Outcome E B) → Outcome E B
and_then (ok a) f = f a
and_then (err e) _ = err e
and_then (throw e) _ = throw e

-- An operation on a state `S`.
abbrev pub Act : Type 0 → Type 0 → Type 0 → Type 0
Act S E A = S → Outcome E A × S

abbrev pub resume : {S E A B : Type 0} → (A → Act S E B) → Outcome E A × S → Outcome E B × S
resume f (ok a, s) = f a s
resume f (err e, s) = (err e, s)
resume f (throw e, s) = (throw e, s)

infixl 5 ◌>>=◌ ◌>>◌
abbrev pub ◌>>=◌ : {S E A B : Type 0} → Act S E A → (A → Act S E B) → Act S E B
◌>>=◌ m f s = resume f (m s)

abbrev pub ◌>>◌ : {S E B : Type 0} → Act S E (Unit {0}) → Act S E B → Act S E B
m >> k = m >>= λ _. k

module _ {S E : Type 0} where
  abbrev pub pure : {A : Type 0} → A → Act S E A
  pure a s = (ok a, s)

  -- `return err(e)`
  abbrev pub fail : {A : Type 0} → E → Act S E A
  fail e s = (err e, s)

  -- `if (refused) return err(e)`
  abbrev pub refuse_if : Bool → E → Act S E (Unit {0})
  refuse_if refused e s = (if refused then err e else ok tt, s)

  -- `if (error) return err(error)`
  abbrev pub refuse_on : Option E → Act S E (Unit {0})
  refuse_on none s = (ok tt, s)
  refuse_on (some e) s = (err e, s)

  -- A computation that does not touch the state.
  abbrev pub lift : {A : Type 0} → Outcome E A → Act S E A
  lift r s = (r, s)

pub Outcome-cases :
    {E A : Type 0} (r : Outcome E A)
    → ((a : A) × (r ≡ ok a)) ⊎ ((e : E) × (r ≡ err e)) ⊎ ((e : E) × (r ≡ throw e))
Outcome-cases (ok a) = inl (a, refl)
Outcome-cases (err e) = inr (inl (e, refl))
Outcome-cases (throw e) = inr (inr (e, refl))

-- Inversion of a chain that ends with a value.
pub and_then-eq-ok :
    {E A B : Type 0} (m : Outcome E A) (f : A → Outcome E B) {b : B}
    → and_then m f ≡ ok b
    → (a : A) × (m ≡ ok a) × (f a ≡ ok b)
and_then-eq-ok (ok a) f h = (a, refl, h)
and_then-eq-ok (err e) f h = cc
and_then-eq-ok (throw e) f h = cc

pub ok-injective : {E A : Type 0} {a b : A} → ◌≡◌ {A = Outcome E A} (ok a) (ok b) → a ≡ b
ok-injective h = cc

-- A chain whose first part succeeds goes on from the state that it leaves.
pub >>-ok :
    {S E B : Type 0} (m : Act S E (Unit {0})) (n : Act S E B) {s s' : S} {r : Outcome E B × S}
    → m s ≡ (ok tt, s')
    → n s' ≡ r
    → (m >> n) s ≡ r
>>-ok m n h h' = ap (resume (λ _. n)) h ∙ h'
