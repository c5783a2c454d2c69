-- ===== src/Storage/Lifecycle/Machine.antt =====
-- The three-state machine that the transitions implement.
use stocka_server.Prelude.{
  ℕ, ◌≡◌, refl, ap, arith, ◌||◌, not, is_some, Bool-cases, ◌∙◌, ◌⊎◌, inl, inr, none, some, [], ◌∷◌,
  ◌++◌, Text, Option-cases,
}
use stocka_server.Shared.Outcome.{ok, err}
use stocka_server.Storage.Exceptions.{
  StorageException, already_archived, already_frozen, archived_cannot_be_frozen, not_archived,
  not_frozen,
}
use stocka_server.Storage.Model.{
  Common, Changes, StorageStatus, active, frozen, archived, status, with_common,
}
use stocka_server.Storage.Events
use stocka_server.Storage.Events.{StorageEvent, Subject}
use stocka_server.Storage.Lifecycle.{
  StorageModel, Aggregate, Transition, common_of, subject, mark_archived, mark_frozen,
  mark_unfrozen, mark_restored,
}

pub data Operation : Type 0 where
  archive freeze unfreeze restore : Operation

-- The specification: the next status, or the exception that names the storage.
abbrev pub next_status : StorageStatus → Operation → StorageStatus ⊎ (Text → StorageException)
next_status archived archive = inr already_archived
next_status _ archive = inl archived
next_status active freeze = inl frozen
next_status frozen freeze = inr already_frozen
next_status archived freeze = inr archived_cannot_be_frozen
next_status frozen unfreeze = inl active
next_status _ unfreeze = inr not_frozen
next_status archived restore = inl active
next_status _ restore = inr not_archived

-- The event that announces an operation.
abbrev pub event_of : Operation → Subject → StorageEvent
event_of archive = Events.archived
event_of freeze = Events.frozen
event_of unfreeze = Events.reactivated
event_of restore = Events.restored

-- A storage is never archived and frozen at once.
abbrev pub IsConsistent : Common → Type 0
IsConsistent m = (m.archived_at ≡ none) ⊎ (m.frozen_at ≡ none)

-- Whose storage it is, and since when.
abbrev pub SameIdentity : Common → Common → Type 0
SameIdentity m n =
    (n.uuid ≡ m.uuid) × (n.tenant_uuid ≡ m.tenant_uuid) × (n.created_at ≡ m.created_at)

-- The dates of a storage, by its status.
Dates-cases :
    (m : Common)
    → ((m.archived_at ≡ none) × (m.frozen_at ≡ none))
      ⊎ ((t : ℕ) × (m.archived_at ≡ none) × (m.frozen_at ≡ some t))
      ⊎ ((t : ℕ) × (m.archived_at ≡ some t))
Dates-cases m = elim (Option-cases m.archived_at) [
  | inl a ↦ elim (Option-cases m.frozen_at) [
    | inl f ↦ inl (a, f)
    | inr (t, f) ↦ inr (inl (t, a, f))
  ]
  | inr (t, a) ↦ inr (inr (t, a))
]

module _ {M : Type 0} ⦃k : StorageModel M⦄ where
  unfoldable pub apply_operation : Operation → ℕ → Text → Aggregate M → Transition M
  apply_operation archive = mark_archived
  apply_operation freeze = mark_frozen
  apply_operation unfreeze = mark_unfrozen
  apply_operation restore = mark_restored

  -- What a transition does according to the specification: it moves to the next status, and adds
  -- its one event; or it returns the exception, and changes nothing.
  abbrev pub Implements :
      StorageStatus ⊎ (Text → StorageException)
      → Operation
      → Text
      → Aggregate M
      → Transition M
      → Type 0
  Implements (inl s) op actor a (r, b) =
      (r ≡ ok tt)
      × (status (common_of b) ≡ s)
      × (b.uncommitted ≡ a.uncommitted ++ event_of op (subject actor a) ∷ [])
  Implements (inr e) op actor a (r, b) = (r ≡ err (e (common_of a).uuid)) × (b ≡ a)

  -- A method does what the machine says for the storage's status: it moves to the next status and
  -- adds its one event, or returns the machine's exception and changes nothing.
  pub apply_operation-Implements :
      (op : Operation) (now : ℕ) (actor : Text) (a : Aggregate M)
      → Implements
          (next_status (status (common_of a)) op)
          op
          actor
          a
          (apply_operation op now actor a)
  unfolding apply_operation mark_archived mark_frozen mark_unfrozen mark_restored with_common
  apply_operation-Implements archive now actor a = elim (Dates-cases (common_of a)) [
    | inl (e, f) ↦ rw (e, f) (refl, ap status (k.common-with_changes now _ a.model), refl)
    | inr (inl (t, e, f)) ↦ rw (e, f) (refl, ap status (k.common-with_changes now _ a.model), refl)
    | inr (inr (t, e)) ↦ rw e (refl, refl)
  ]
  apply_operation-Implements freeze now actor a = elim (Dates-cases (common_of a)) [
    | inl (e, f) ↦ rw (e, f) (refl, ap status (k.common-with_changes now _ a.model) ∙ (rw e), refl)
    | inr (inl (t, e, f)) ↦ rw (e, f) (refl, refl)
    | inr (inr (t, e)) ↦ rw e (refl, refl)
  ]
  apply_operation-Implements unfreeze now actor a = elim (Dates-cases (common_of a)) [
    | inl (e, f) ↦ rw (e, f) (refl, refl)
    | inr (inl (t, e, f)) ↦
        rw (e, f) (refl, ap status (k.common-with_changes now _ a.model) ∙ (rw e), refl)
    | inr (inr (t, e)) ↦ rw e (ground arith, ground arith)
  ]
  apply_operation-Implements restore now actor a = elim (Dates-cases (common_of a)) [
    | inl (e, f) ↦ rw (e, f) (refl, refl)
    | inr (inl (t, e, f)) ↦ rw (e, f) (refl, refl)
    | inr (inr (t, e)) ↦ rw e (refl, ap status (k.common-with_changes now _ a.model), refl)
  ]

  with_changes-SameIdentity :
      (now : ℕ) (c : Changes) (m : M)
      → SameIdentity (k.common m) (k.common (k.with_changes now c m))
  unfolding with_common
  with_changes-SameIdentity now c m =
      let same = k.common-with_changes now c m in
      (ap (λ m. m.uuid) same, ap (λ m. m.tenant_uuid) same, ap (λ m. m.created_at) same)

  -- No transition changes whose storage it is, or when it was created.
  pub apply_operation-SameIdentity :
      (op : Operation) (now : ℕ) (actor : Text) (a : Aggregate M)
      → SameIdentity (common_of a) (common_of (apply_operation op now actor a).1)
  unfolding apply_operation mark_archived mark_frozen mark_unfrozen mark_restored
  apply_operation-SameIdentity archive now actor a =
      elim (Bool-cases (is_some (common_of a).archived_at)) [
        | inl e ↦ rw e (refl, refl, refl)
        | inr e ↦ rw e (with_changes-SameIdentity now _ a.model)
      ]
  apply_operation-SameIdentity freeze now actor a = elim (Dates-cases (common_of a)) [
    | inl (e, f) ↦ rw (e, f) (with_changes-SameIdentity now _ a.model)
    | inr (inl (t, e, f)) ↦ rw (e, f) (refl, refl, refl)
    | inr (inr (t, e)) ↦ rw e (refl, refl, refl)
  ]
  apply_operation-SameIdentity unfreeze now actor a =
      elim (Bool-cases
        (not (is_some (common_of a).frozen_at) || is_some (common_of a).archived_at)) [
          | inl e ↦ rw e (refl, refl, refl)
          | inr e ↦ rw e (with_changes-SameIdentity now _ a.model)
        ]
  apply_operation-SameIdentity restore now actor a =
      elim (Bool-cases (is_some (common_of a).archived_at)) [
        | inl e ↦ rw e (with_changes-SameIdentity now _ a.model)
        | inr e ↦ rw e (refl, refl, refl)
      ]

  mark_frozen-IsConsistent :
      (now : ℕ) (actor : Text) (a : Aggregate M)
      → IsConsistent (common_of a)
      → IsConsistent (common_of (mark_frozen now actor a).1)
  unfolding mark_frozen with_common
  mark_frozen-IsConsistent now actor a h = elim (Dates-cases (common_of a)) [
    | inl (e, f) ↦
        rw (e, f) (inl (ap (λ m. m.archived_at) (k.common-with_changes now _ a.model) ∙ e))
    | inr (inl (t, e, f)) ↦ rw (e, f) h
    | inr (inr (t, e)) ↦ rw e h
  ]

  -- No transition makes a storage archived and frozen at once.
  pub apply_operation-IsConsistent :
      (op : Operation) (now : ℕ) (actor : Text) (a : Aggregate M)
      → IsConsistent (common_of a)
      → IsConsistent (common_of (apply_operation op now actor a).1)
  unfolding apply_operation mark_archived mark_unfrozen mark_restored with_common
  apply_operation-IsConsistent archive now actor a h =
      elim (Bool-cases (is_some (common_of a).archived_at)) [
        | inl e ↦ rw e h
        | inr e ↦ rw e (inr (ap (λ m. m.frozen_at) (k.common-with_changes now _ a.model)))
      ]
  apply_operation-IsConsistent freeze now actor a h = mark_frozen-IsConsistent now actor a h
  apply_operation-IsConsistent unfreeze now actor a h =
      elim (Bool-cases
        (not (is_some (common_of a).frozen_at) || is_some (common_of a).archived_at)) [
          | inl e ↦ rw e h
          | inr e ↦ rw e (inr (ap (λ m. m.frozen_at) (k.common-with_changes now _ a.model)))
        ]
  apply_operation-IsConsistent restore now actor a h =
      elim (Bool-cases (is_some (common_of a).archived_at)) [
        | inl e ↦ rw e (inl (ap (λ m. m.archived_at) (k.common-with_changes now _ a.model)))
        | inr e ↦ rw e h
      ]
