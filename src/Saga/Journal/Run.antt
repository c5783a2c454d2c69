-- ===== src/Saga/Journal/Run.antt =====
-- A whole run of a saga leaves the journal that its script promises.
use stocka_server.Prelude.{
  ◌≡◌, refl, sym, ap, ap₂, ◌∙◌, Bool, true, false, not, ◌&&◌, List, [], ◌∷◌, ◌++◌, map, map-append,
  reverse, keep, find, if◌then◌else◌, Text, append-nil, append_assoc, Bool-cases, Option-cases, ◌⊎◌,
  inl, inr,
}
use stocka_server.Shared.Outcome.{Outcome, ok, err, throw, Act, resume}
use stocka_server.Saga.Retry.{Failure}
use stocka_server.Saga.Process
use stocka_server.Saga.Process.{States}
use stocka_server.Saga.Engine.{
  Progress, is_transactional_step, run_step, run_steps, run, cleanup_process, finally, initiated,
  save,
}
use stocka_server.Saga.Journal.{
  executed, rolled_back, Journal, Script, step_of, journal_platform, is_fatal, up_to_fatal,
  first_transactional, ending, began_by, bracketed, undo, undone, expected, expected_outcome,
}
use stocka_server.Saga.Journal.Laws.{Goes, Ends, script, run_step_journal, run_step_fatal}

module _ {S E A B : Type 0} (f : A → Act S E B) where
  resume_of_ok : (t : Outcome E A × S) {a : A} → t.0 ≡ ok a → resume f t ≡ f a t.1
  resume_of_ok (r, s) h = ap (λ r. resume f (r, s)) h

  resume_of_throw : (t : Outcome E A × S) {e : E} → t.0 ≡ throw e → resume f t ≡ (throw e, t.1)
  resume_of_throw (r, s) h = ap (λ r. resume f (r, s)) h

next_of : (rest : List Script) → is_transactional_step (map step_of rest) ≡ first_transactional rest
next_of [] = refl
next_of (s ∷ rest) = refl

first-up_to_fatal :
    (steps : List Script) → first_transactional (up_to_fatal steps) ≡ first_transactional steps
first-up_to_fatal [] = refl
first-up_to_fatal (s ∷ rest) = elim (Bool-cases (is_fatal s)) [
  | inl e ↦ rw e refl
  | inr e ↦ rw e refl
]

-- The steps to undo, when `s` has been executed.
abbrev and_then_done : List Script → Script → List Script
and_then_done done s = done ++ (if s.fails then [] else s ∷ [])

module _ (n : Text) (c : Bool) where
  completed-and_then_done :
      (t f : Bool) (done : List Script)
      → map step_of done ++ (if f then [] else step_of (script n t f c) ∷ [])
        ≡ map step_of (and_then_done done (script n t f c))
  completed-and_then_done t true done = sym (map-append step_of done [])
  completed-and_then_done t false done = sym (map-append step_of done (script n t false c ∷ []))

  keep_done :
      (t f : Bool) (done rest : List Script)
      → done ++ keep (λ s. not s.fails) (script n t f c ∷ rest)
        ≡ and_then_done done (script n t f c) ++ keep (λ s. not s.fails) rest
  keep_done t true done rest = ap (λ d. d ++ keep (λ s. not s.fails) rest) (sym (append-nil done))
  keep_done t false done rest = sym (append_assoc done (script n t false c ∷ []) _)

  undone_cons :
      (t f : Bool) (done rest : List Script)
      → is_fatal (script n t f c) ≡ false
      → undone done (script n t f c ∷ rest) ≡ undone (and_then_done done (script n t f c)) rest
  undone_cons true true done rest h = cc h
  undone_cons true false done rest h = elim (Option-cases (find is_fatal rest)) [
    | inl e ↦ rw (undone, e) refl
    | inr (s, e) ↦
        rw (undone, e) (ap (λ d. undo (reverse d)) (keep_done true false done (up_to_fatal rest)))
  ]
  undone_cons false f done rest h = elim (Option-cases (find is_fatal rest)) [
    | inl e ↦ rw (undone, e) refl
    | inr (s, e) ↦
        rw (undone, e) (ap (λ d. undo (reverse d)) (keep_done false f done (up_to_fatal rest)))
  ]

  outcome_cons :
      (t f : Bool) (rest : List Script)
      → is_fatal (script n t f c) ≡ false
      → expected_outcome (script n t f c ∷ rest) ≡ expected_outcome rest
  outcome_cons true true rest h = cc h
  outcome_cons true false rest h = refl
  outcome_cons false f rest h = refl

  bracketed_cons :
      (t f o : Bool) (rest : List Script)
      → is_fatal (script n t f c) ≡ false
      → bracketed o (up_to_fatal (script n t f c ∷ rest))
        ≡ began_by t o
          ++ executed n ∷ ending (script n t f c) (first_transactional rest)
          ++ bracketed (t && first_transactional rest) (up_to_fatal rest)
  bracketed_cons true true o rest h = cc h
  bracketed_cons true false o rest h = rw (first-up_to_fatal rest) refl
  bracketed_cons false f o rest h = refl

-- What the steps from here on leave, when those of `done` are to be undone on failure.
abbrev Follows :
    List Script
    → List Script
    → Bool
    → Progress Journal Text
    → Outcome (Failure Text) (Unit {0}) × Progress Journal Text
    → Type 0
Follows steps done o p (r, p') =
    (r ≡ expected_outcome steps)
    × (p'.world ≡ p.world ++ (bracketed o (up_to_fatal steps) ++ undone done steps))
    × (p'.has_open_transaction ≡ false)

append_regroup : (w a b u : Journal) → (w ++ a) ++ (b ++ u) ≡ w ++ ((a ++ b) ++ u)
append_regroup w a b u = append_assoc w a (b ++ u) ∙ ap (λ x. w ++ x) (sym (append_assoc a b u))

fatal_regroup :
    (a b : Journal) (done : List Script)
    → a ++ (b ++ undo (reverse done)) ≡ a ++ b ++ [] ++ undo (reverse (done ++ []))
fatal_regroup a b done = sym (
    ap₂ (λ x d. x ++ undo (reverse d)) (append-nil (a ++ b)) (append-nil done)
    ∙ append_assoc a b (undo (reverse done)))

module _ (n : Text) (c : Bool) (rest done : List Script) (o : Bool) (p : Progress Journal Text)
    (t : Outcome (Failure Text) (Unit {0}) × Progress Journal Text) where
  Follows-fatal :
      Ends (script n true true c) o done p t
      → Follows
          (script n true true c ∷ rest)
          done
          o
          p
          (resume (λ _. run_steps journal_platform (map step_of rest)) t)
  Follows-fatal (r, w, b) =
      rw (resume_of_throw (λ _. run_steps journal_platform (map step_of rest)) t r) (
        refl,
        w
            ∙ ap (λ x. p.world ++ x)
                (fatal_regroup (began_by true o) (executed n ∷ rolled_back ∷ []) done),
        b,
      )

-- A step that does not end the saga, then the rest.
module _ (n : Text) (c tr f : Bool) (rest done : List Script) (o : Bool) (p : Progress Journal Text)
    (t : Outcome (Failure Text) (Unit {0}) × Progress Journal Text)
    (h : is_fatal (script n tr f c) ≡ false) where
  Follows-step :
      Goes (script n tr f c) o (first_transactional rest) p t
      → Follows rest (and_then_done done (script n tr f c)) (tr && first_transactional rest) t.1 (
          run_steps journal_platform
            (map step_of rest)
            (record t.1 { has_open_transaction = tr && first_transactional rest }))
      → Follows
          (script n tr f c ∷ rest)
          done
          o
          p
          (resume (λ _. run_steps journal_platform (map step_of rest)) t)
  Follows-step (r, w, d, b) (r', w', b') =
      rw
        (
          resume_of_ok (λ _. run_steps journal_platform (map step_of rest)) t r
              ∙ ap
                  (λ b.
                    run_steps journal_platform (map step_of rest)
                      (record t.1 { has_open_transaction = b }))
                  b,
          outcome_cons n c tr f rest h,
          bracketed_cons n c tr f o rest h,
          undone_cons n c tr f done rest h,
        )
        (r', w' ∙ (rw w (append_regroup p.world _ _ _)), b')

-- What `run_steps` leaves, whatever was done before.
abbrev Journals : List Script → Type 0
Journals steps =
    (done : List Script) (o : Bool) (p : Progress Journal Text)
    → p.completed_steps ≡ map step_of done
    → (o ≡ false) ⊎ (first_transactional steps ≡ true)
    → Follows steps done o p
        (run_steps journal_platform (map step_of steps) (record p { has_open_transaction = o }))

-- After a step, a transaction is open only if the next step is of it.
still_open : (t next : Bool) → ((t && next) ≡ false) ⊎ (next ≡ true)
still_open t true = inr refl
still_open true false = inl refl
still_open false false = inl refl

module _ (n : Text) (c : Bool) (rest : List Script) (ih : Journals rest) where
  after_step : (t f : Bool) → is_fatal (script n t f c) ≡ false → Journals (script n t f c ∷ rest)
  unfolding run_steps
  after_step t f h done o p d k =
      let next = first_transactional rest in
      let s = script n t f c in
      let done' =
        run_step journal_platform (step_of s) (map step_of rest)
          (record p { has_open_transaction = o }) in
      let goes = run_step_journal n c t f o next (map step_of rest) p h k (next_of rest) in
      Follows-step n c t f rest done o p done' h goes (
        ih (and_then_done done s) (t && next) done'.1
          (goes.2
            ∙ ap (λ d. d ++ (if f then [] else step_of s ∷ [])) d
            ∙ completed-and_then_done n c t f done)
          (still_open t next))

  cons_journal : (t f : Bool) → Journals (script n t f c ∷ rest)
  unfolding run_steps
  cons_journal true true done o p d k =
      Follows-fatal n c rest done o p _ (run_step_fatal n c o done (map step_of rest) p d)
  cons_journal true false done o p d k = after_step true false refl done o p d k
  cons_journal false f done o p d k = after_step false f refl done o p d k

steps_journal : (steps : List Script) → Journals steps
unfolding run_steps
steps_journal [] done o p d (inl h) = (refl, sym (append-nil _), h)
steps_journal [] done o p d (inr h) = cc h
steps_journal (s ∷ rest) done o p d k =
    cons_journal s.name s.compensates rest (steps_journal rest) s.transactional s.fails done o p d k

module _ (id correlation_id : Text) (states : States) where
  finish_journal :
      (r : Outcome (Failure Text) (Unit {0})) (p : Progress Journal Text)
      → p.has_open_transaction ≡ false
      → let t =
          finally journal_platform id
            (resume (λ _. save journal_platform (Process.complete 0)) (r, p)) in
        (t.0 ≡ r) × (t.1 ≡ p.world)
  unfolding cleanup_process
  finish_journal (ok tt) p h = rw h (refl, refl)
  finish_journal (throw e) p h = rw h (refl, refl)
  finish_journal (err e) p h = rw h (refl, refl)

  -- A saga runs its steps in order up to the first transactional one that fails. Transactions
  -- open before a transactional step if none is open, and are committed before a step that is not
  -- transactional and at the end. A step outside a transaction that fails is compensated at once and
  -- the saga goes on. On a failure in a transaction, the transaction is rolled back, the steps that
  -- succeeded are compensated, the last first, and the saga ends with the error.
  pub run_journal :
      (steps : List Script)
      → let t = run journal_platform id correlation_id (map step_of steps) [] states in
        (t.0 ≡ expected_outcome steps) × (t.1 ≡ expected steps)
  unfolding run
  run_journal steps =
      let start = initiated journal_platform id correlation_id (map step_of steps) [] states in
      let (r, p) = run_steps journal_platform (map step_of steps) start in
      let (ended, left, closed) = steps_journal steps [] false start refl (inl refl) in
      let (same, world) = finish_journal r p closed in (same ∙ ended, world ∙ left)
