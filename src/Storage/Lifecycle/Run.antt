-- ===== src/Storage/Lifecycle/Run.antt =====
-- Any sequence of transitions of one storage, against the machine.
use stocka_server.Prelude.{
  ℕ, ◌≡◌, refl, sym, ap, ap₂, fun_ext, append-nil, append_assoc, ◌∙◌, ◌⊎◌, inl, inr, List, [], ◌∷◌,
  ◌++◌, Text,
}
use stocka_server.Storage.Exceptions.{StorageException}
use stocka_server.Storage.Model.{StorageStatus, status}
use stocka_server.Storage.Events.{StorageEvent, Subject}
use stocka_server.Storage.Lifecycle.{StorageModel, Aggregate, Transition, common_of, subject}
use stocka_server.Storage.Lifecycle.Machine.{
  Operation, next_status, event_of, apply_operation, Implements, apply_operation-Implements,
  SameIdentity, apply_operation-SameIdentity,
}

pub record Call : Type 0 where
  pub operation : Operation
  pub now : ℕ
  pub actor : Text

-- The status after the calls, and the events that they add, by the machine alone.
abbrev settle : StorageStatus → StorageStatus ⊎ (Text → StorageException) → StorageStatus
settle s (inl s') = s'
settle s (inr _) = s

abbrev announce : StorageStatus ⊎ (Text → StorageException) → StorageEvent → List StorageEvent
announce (inl _) e = e ∷ []
announce (inr _) e = []

abbrev pub final_status : StorageStatus → List Call → StorageStatus
final_status s [] = s
final_status s (c ∷ cs) = final_status (settle s (next_status s c.operation)) cs

abbrev pub history : (Text → Subject) → StorageStatus → List Call → List StorageEvent
history who s [] = []
history who s (c ∷ cs) =
    announce (next_status s c.operation) (event_of c.operation (who c.actor))
    ++ history who (settle s (next_status s c.operation)) cs

module _ {M : Type 0} ⦃k : StorageModel M⦄ where
  unfoldable pub run : List Call → Aggregate M → Aggregate M
  run [] a = a
  run (c ∷ cs) a = run cs (apply_operation c.operation c.now c.actor a).1

  settle_of_Implements :
      (n : StorageStatus ⊎ (Text → StorageException)) (op : Operation) (actor : Text)
      (a : Aggregate M) (t : Transition M)
      → Implements n op actor a t
      → (status (common_of t.1) ≡ settle (status (common_of a)) n)
        × (t.1.uncommitted ≡ a.uncommitted ++ announce n (event_of op (subject actor a)))
  settle_of_Implements (inl s) op actor a (r, b) h = (h.1, h.2)
  settle_of_Implements (inr e) op actor a (r, b) h =
      (ap (λ c. status (common_of c)) h.1, ap (λ c. c.uncommitted) h.1 ∙ sym (append-nil _))

  subject_of_SameIdentity :
      (a b : Aggregate M)
      → SameIdentity (common_of a) (common_of b)
      → ◌≡◌ {A = Text → Subject} (λ actor. subject actor b) (λ actor. subject actor a)
  subject_of_SameIdentity a b (u, t, c) =
      fun_ext (λ actor i. record { storage_uuid = u i; tenant_uuid = t i; actor_uuid = actor })

  -- Whatever calls are made, in whatever order, the storage ends in the status that the machine
  -- gives, and its events are exactly those of the accepted calls, in their order.
  pub run_refines :
      (cs : List Call) (a : Aggregate M)
      → (status (common_of (run cs a)) ≡ final_status (status (common_of a)) cs)
        × ((run cs a).uncommitted
            ≡ a.uncommitted ++ history (λ actor. subject actor a) (status (common_of a)) cs)
  unfolding run
  run_refines [] a = (refl, sym (append-nil _))
  run_refines (c ∷ cs) a =
      let t = apply_operation c.operation c.now c.actor a in
      let n = next_status (status (common_of a)) c.operation in
      let step =
        settle_of_Implements n c.operation c.actor a t
          (apply_operation-Implements c.operation c.now c.actor a) in
      let who =
        subject_of_SameIdentity a t.1 (apply_operation-SameIdentity c.operation c.now c.actor a) in
      let rest = run_refines cs t.1 in
      (
        rest.0 ∙ ap (λ s. final_status s cs) step.0,
        rest.1
            ∙ ap₂ (λ log tail. log ++ tail) step.1 (ap₂ (λ w s. history w s cs) who step.0)
            ∙ append_assoc a.uncommitted _ _,
      )
