-- ===== src/Shared/Rules.antt =====
-- Rules for chains of operations: inversion, chains that only read, and chains that are all or
-- nothing.
use stocka_server.Prelude.{◌≡◌, refl, ap, ◌∙◌, true, Option, none, some, ◌⊎◌, inl, inr}
use stocka_server.Shared.Outcome.{Outcome, ok, err, throw, is_ok, Act, resume, ◌>>=◌, refuse_on}

-- What an operation leaves of the state is seen through a view `v` of it.
module _ {S E V : Type 0} (v : S → V) where
  -- An operation that leaves what `v` shows as it is, whatever it answers.
  abbrev pub Leaves : {A : Type 0} → Act S E A → Type 0
  Leaves m = (s : S) → v (m s).1 ≡ v s

  -- An operation that succeeds, or leaves what `v` shows as it is.
  abbrev pub AllOrNothing : {A : Type 0} → Act S E A → Type 0
  AllOrNothing m = (s : S) → (is_ok (m s).0 ≡ true) ⊎ (v (m s).1 ≡ v s)

abbrev pub Succeeds : {S E A : Type 0} → Act S E A → Type 0
Succeeds {S} m = (s : S) → is_ok (m s).0 ≡ true

module _ {S E V : Type 0} (v : S → V) where
  pub Leaves-on : (e : Option E) → Leaves v (refuse_on e)
  Leaves-on none s = refl
  Leaves-on (some e) s = refl

module _ {S E V A B : Type 0} (v : S → V) (m : Act S E A) (f : A → Act S E B) where
  resume-Leaves :
      (t : Outcome E A × S) (s : S)
      → v t.1 ≡ v s
      → ((a : A) → Leaves v (f a))
      → v (resume f t).1 ≡ v s
  resume-Leaves (ok a, s') s h k = k a s' ∙ h
  resume-Leaves (err e, s') s h k = h
  resume-Leaves (throw e, s') s h k = h

  pub Leaves-bind : Leaves v m → ((a : A) → Leaves v (f a)) → Leaves v (m >>= f)
  Leaves-bind h k s = resume-Leaves (m s) s (h s) k

  resume-AllOrNothing :
      (t : Outcome E A × S) (s : S)
      → v t.1 ≡ v s
      → ((a : A) → AllOrNothing v (f a))
      → (is_ok (resume f t).0 ≡ true) ⊎ (v (resume f t).1 ≡ v s)
  resume-AllOrNothing (ok a, s') s h k = elim (k a s') [
    | inl done ↦ inl done
    | inr same ↦ inr (same ∙ h)
  ]
  resume-AllOrNothing (err e, s') s h k = inr h
  resume-AllOrNothing (throw e, s') s h k = inr h

  -- First an operation that leaves the view alone, then one that is all or nothing.
  pub AllOrNothing-after : Leaves v m → ((a : A) → AllOrNothing v (f a)) → AllOrNothing v (m >>= f)
  AllOrNothing-after h k s = resume-AllOrNothing (m s) s (h s) k

  resume-Succeeds :
      (t : Outcome E A × S) (s : S)
      → (is_ok t.0 ≡ true) ⊎ (v t.1 ≡ v s)
      → ((a : A) → Succeeds (f a))
      → (is_ok (resume f t).0 ≡ true) ⊎ (v (resume f t).1 ≡ v s)
  resume-Succeeds (ok a, s') s h k = inl (k a s')
  resume-Succeeds (err e, s') s (inl h) k = cc
  resume-Succeeds (err e, s') s (inr h) k = inr h
  resume-Succeeds (throw e, s') s (inl h) k = cc
  resume-Succeeds (throw e, s') s (inr h) k = inr h

  -- First an operation that is all or nothing, then one that cannot fail.
  pub AllOrNothing-then : AllOrNothing v m → ((a : A) → Succeeds (f a)) → AllOrNothing v (m >>= f)
  AllOrNothing-then h k s = resume-Succeeds (m s) s (h s) k

module _ {S E A B : Type 0} (m : Act S E A) (f : A → Act S E B) where
  resume-inv :
      (t : Outcome E A × S) {b : B} {s'' : S}
      → resume f t ≡ (ok b, s'')
      → (a : A) × (s' : S) × (t ≡ (ok a, s')) × (f a s' ≡ (ok b, s''))
  resume-inv (ok a, s') h = (a, s', refl, h)
  resume-inv (err e, s') h = cc (ap (λ t. t.0) h)
  resume-inv (throw e, s') h = cc (ap (λ t. t.0) h)

  -- A chain that ends with a value went through each of its parts.
  pub >>=-inv :
      {s s'' : S} {b : B}
      → (m >>= f) s ≡ (ok b, s'')
      → (a : A) × (s' : S) × (m s ≡ (ok a, s')) × (f a s' ≡ (ok b, s''))
  >>=-inv {s} h = resume-inv (m s) h

-- An operation that keeps an invariant of the state, however it ends.
abbrev pub Preserves : {S E A : Type 0} → (S → Type 0) → Act S E A → Type 0
Preserves {S} P m = (s : S) → P s → P (m s).1

module _ {S E A B : Type 0} (P : S → Type 0) (m : Act S E A) (f : A → Act S E B) where
  resume-Preserves :
      (t : Outcome E A × S) → P t.1 → ((a : A) → Preserves P (f a)) → P (resume f t).1
  resume-Preserves (ok a, s') p k = k a s' p
  resume-Preserves (err e, s') p k = p
  resume-Preserves (throw e, s') p k = p

  pub Preserves-bind : Preserves P m → ((a : A) → Preserves P (f a)) → Preserves P (m >>= f)
  Preserves-bind h k s p = resume-Preserves (m s) (h s p) k
