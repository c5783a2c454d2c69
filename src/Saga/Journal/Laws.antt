-- ===== src/Saga/Journal/Laws.antt =====
-- A saga leaves the journal that its script promises.
use mathlib.Mathlib.Data.List.Basic.{map-reverse_aux}
use stocka_server.Prelude.{
  ◌≡◌, refl, sym, ap, ◌∙◌, Bool, true, false, ◌&&◌, List, [], ◌∷◌, ◌++◌, map, reverse, keep,
  is_some, if◌then◌else◌, Text, append-nil, append_assoc, Bool-cases, ◌⊎◌, inl, inr,
}
use stocka_server.Shared.Outcome.{Outcome, ok, throw, ◌>>◌, >>-ok}
use stocka_server.Saga.Retry.{Failure, raised}
use stocka_server.Saga.Process
use stocka_server.Saga.Process.{States, processing}
use stocka_server.Saga.Engine.{
  Step, Progress, is_transactional_step, compensate_each, compensate_all, compensate_step,
  run_compensation, run_step, begin_before, commit_after, on_failure, execute_step, save,
}
use stocka_server.Saga.Journal.{
  Entry, executed, compensated, begun, committed, rolled_back, Journal, Script, step_of,
  journal_platform, is_fatal, ending, began_by, undo,
}

-- The stage that adds entries to the journal and does nothing else to it.
compensate_each_journal :
    (steps : List Script) (p : Progress Journal Text)
    → compensate_each journal_platform (keep (λ s. is_some s.compensate) (map step_of steps)) p
      ≡ (ok tt, record p { world = p.world ++ undo steps })
unfolding compensate_step
compensate_each_journal [] p = ap (λ w. (ok tt, record p { world = w })) (sym (append-nil _))
compensate_each_journal (s ∷ steps) p = elim (Bool-cases s.compensates) [
  | inl e ↦ rw e (
      compensate_each_journal steps _
      ∙ ap (λ w. (ok tt, record p { world = w })) (append_assoc p.world _ _))
  | inr e ↦ rw e (compensate_each_journal steps _)
]

compensate_all_states :
    (message : Text) (steps : List (Step Journal Text)) (p : Progress Journal Text)
    → (states : States) × (compensate_all journal_platform message steps p
        ≡ compensate_each journal_platform steps (record p { states = states }))
compensate_all_states message [] p = (p.states, refl)
compensate_all_states message (step ∷ steps) p = (_, refl)

map-reverse : (steps : List Script) → reverse (map step_of steps) ≡ map step_of (reverse steps)
map-reverse steps = sym (map-reverse_aux step_of steps [])

run_compensation_journal :
    (message : Text) (done : List Script) (p : Progress Journal Text)
    → p.completed_steps ≡ map step_of done
    → (states : States) × (run_compensation journal_platform message p
        ≡ (ok tt, record p { world = p.world ++ undo (reverse done); states = states }))
unfolding run_compensation
run_compensation_journal message done p h =
    let steps = keep (λ s. is_some s.compensate) (map step_of (reverse done)) in
    let (states, e) = compensate_all_states message steps p in
    (
      _,
      ap
            (λ completed.
              (compensate_all journal_platform message (keep (λ s. is_some s.compensate) completed)
                  >> save journal_platform (Process.fail_process 0 message))
                p)
            (ap reverse h ∙ map-reverse done)
          ∙ >>-ok (compensate_all journal_platform message steps)
              (save journal_platform (Process.fail_process 0 message))
              (e ∙ compensate_each_journal (reverse done) (record p { states = states })) refl,
    )

-- What a step that does not end the saga leaves.
abbrev pub Goes :
    Script
    → Bool
    → Bool
    → Progress Journal Text
    → Outcome (Failure Text) (Unit {0}) × Progress Journal Text
    → Type 0
Goes s o next p (r, p') =
    (r ≡ ok tt)
    × (p'.world ≡ p.world ++ (began_by s.transactional o ++ executed s.name ∷ ending s next))
    × (p'.completed_steps ≡ p.completed_steps ++ (if s.fails then [] else step_of s ∷ []))
    × (p'.has_open_transaction ≡ (s.transactional && next))

-- What a step that ends the saga leaves.
abbrev pub Ends :
    Script
    → Bool
    → List Script
    → Progress Journal Text
    → Outcome (Failure Text) (Unit {0}) × Progress Journal Text
    → Type 0
Ends s o done p (r, p') =
    (r ≡ throw (raised s.name))
    × (p'.world
        ≡ p.world ++ (began_by true o ++ executed s.name ∷ rolled_back ∷ undo (reverse done)))
    × (p'.has_open_transaction ≡ false)

abbrev pub script : Text → Bool → Bool → Bool → Script
script n t f c = record { name = n; transactional = t; fails = f; compensates = c }

module _ (w : Journal) (a b : Entry) where
  two_notes : (w ++ a ∷ []) ++ b ∷ [] ≡ w ++ a ∷ b ∷ []
  two_notes = append_assoc w (a ∷ []) (b ∷ [])

  three_notes : (c : Entry) → (w ++ a ∷ []) ++ b ∷ [] ++ c ∷ [] ≡ w ++ a ∷ b ∷ c ∷ []
  three_notes c = ap (λ w. w ++ c ∷ []) two_notes ∙ append_assoc w (a ∷ b ∷ []) (c ∷ [])

module _ (n : Text) where
  pub run_step_journal :
      (c t f o next : Bool) (rest : List (Step Journal Text)) (p : Progress Journal Text)
      → is_fatal (script n t f c) ≡ false
      → (o ≡ false) ⊎ (t ≡ true)
      → is_transactional_step rest ≡ next
      → Goes (script n t f c) o next p (
          run_step journal_platform
            (step_of (script n t f c))
            rest
            (record p { has_open_transaction = o }))
  unfolding run_step begin_before commit_after on_failure execute_step compensate_step
  run_step_journal c true false true true rest p h k e = rw e (refl, refl, refl, refl)
  run_step_journal c true false true false rest p h k e =
      rw e (refl, two_notes p.world (executed n) committed, refl, refl)
  run_step_journal c true false false true rest p h k e =
      rw e (refl, two_notes p.world begun (executed n), refl, refl)
  run_step_journal c true false false false rest p h k e =
      rw e (refl, three_notes p.world begun (executed n) committed, refl, refl)
  run_step_journal c false false false next rest p h k e = (refl, refl, refl, refl)
  run_step_journal true false true false next rest p h k e =
      (refl, two_notes p.world (executed n) (compensated n), sym (append-nil _), refl)
  run_step_journal false false true false next rest p h k e = (refl, refl, sym (append-nil _), refl)
  run_step_journal c false f true next rest p h (inl k) e = cc k
  run_step_journal c false f true next rest p h (inr k) e = cc k
  run_step_journal c true true o next rest p h k e = cc h

  -- The progress when the transaction of a failed step has been rolled back.
  abbrev rolled : Progress Journal Text → Journal → Progress Journal Text
  rolled p w =
      let state = Process.transition 0 n processing p.state in
      record p {
        world = w;
        states = Process.persist state p.states;
        state = state;
        has_open_transaction = false;
      }

  -- What the first fatal step leaves.
  pub run_step_fatal :
      (c o : Bool) (done : List Script) (rest : List (Step Journal Text))
      (p : Progress Journal Text)
      → p.completed_steps ≡ map step_of done
      → Ends (script n true true c) o done p (
          run_step journal_platform
            (step_of (script n true true c))
            rest
            (record p { has_open_transaction = o }))
  unfolding run_step begin_before on_failure execute_step
  run_step_fatal c true done rest p h =
      let (states, e) =
        run_compensation_journal n done (rolled p (p.world ++ executed n ∷ [] ++ rolled_back ∷ []))
          h in
      rw e (
        refl,
        ap (λ w. w ++ undo (reverse done)) (two_notes p.world (executed n) rolled_back)
            ∙ append_assoc p.world (executed n ∷ rolled_back ∷ []) (undo (reverse done)),
        refl,
      )
  run_step_fatal c false done rest p h =
      let (states, e) =
        run_compensation_journal n done
          (rolled p (p.world ++ begun ∷ [] ++ executed n ∷ [] ++ rolled_back ∷ [])) h in
      rw e (
        refl,
        ap (λ w. w ++ undo (reverse done)) (three_notes p.world begun (executed n) rolled_back)
            ∙ append_assoc p.world (begun ∷ executed n ∷ rolled_back ∷ []) (undo (reverse done)),
        refl,
      )
