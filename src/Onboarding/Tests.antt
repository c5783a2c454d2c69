-- ===== src/Onboarding/Tests.antt =====
-- Onboarding sessions in a list in memory.
use stocka_server.Prelude.{
  ◌≡◌, refl, ap, ◌∙◌, true, Option, none, some, List, [], ◌∷◌, Text, codes, text_eq, text_eq_refl,
  trim, trim_start, trim_end, is_space, if◌then◌else◌,
}
use stocka_server.Shared.Outcome.{ok, throw}
use stocka_server.Onboarding.Session.{
  Value, text, Object, whole, between, step_number, Session, create_session, assign, lookup, join,
  save_progress,
}
use stocka_server.Onboarding.Session.Progress.{Advances, Returns, save_progress-Advances}
use stocka_server.Onboarding.Handlers.{SessionContract, start_onboarding}
use stocka_server.Onboarding.Handlers.Again.{IsFaithful, start_onboarding_again}

abbrev find_session : Text → List Session → Option Session
find_session user [] = none
find_session user (s ∷ w) = if text_eq s.user_uuid user then some s else find_session user w

-- The newest row of a user comes first.
abbrev memory : SessionContract (List Session)
memory = record {
  find_by_user_uuid = λ user w. ok (find_session user w);
  save = λ s w. (ok s, s ∷ w);
}

abbrev user : Text
user = codes "u"

abbrev path_answers : Object Value
path_answers =
    (codes "path", text (codes "JOIN")) ∷ (codes "invitationCode", text (codes " ab ")) ∷ []

joined :
    save_progress (codes "path") path_answers (some (whole 2)) 5 (create_session user 1)
    ≡ ok (record (create_session user 1) {
      path = some join;
      current_step = 2;
      step_data = (codes "path", path_answers) ∷ [];
      invitation_code = some (codes "ab");
      updated_at = 5;
    })
unfolding save_progress assign lookup text_eq trim trim_start trim_end is_space
joined = refl

fraction : save_progress user [] (some (between 0)) 5 (create_session user 1) ≡ throw step_number
unfolding save_progress assign text_eq
fraction = refl

save_progress-Advances_example :
    Returns
      (Advances (codes "path") path_answers (create_session user 1))
      (save_progress (codes "path") path_answers (some (whole 2)) 5 (create_session user 1))
save_progress-Advances_example =
    save_progress-Advances (codes "path") path_answers (some (whole 2)) 5 (create_session user 1)

finds_first : (s : Session) (w : List Session) → find_session s.user_uuid (s ∷ w) ≡ some s
finds_first s w = rw (text_eq_refl s.user_uuid)

memory-IsFaithful : IsFaithful memory
memory-IsFaithful = record {
  finds = λ s t w w' h.
      let rows : w' ≡ s ∷ w = cc in
      let same : s ≡ t = cc in
      ap (λ v. ok (find_session s.user_uuid v)) rows
      ∙ ap (λ r. ok r) (finds_first s w)
      ∙ ap (λ s. ok (some s)) same;
  keeps_status = λ s t w w' h. cc;
}

first_start :
    start_onboarding memory (λ _. true) 1 user []
    ≡ (ok (create_session user 1), create_session user 1 ∷ [])
unfolding start_onboarding
first_start = refl

start_onboarding_again_example :
    start_onboarding memory (λ _. true) 9 user (create_session user 1 ∷ [])
    ≡ (ok (create_session user 1), create_session user 1 ∷ [])
start_onboarding_again_example =
    start_onboarding_again memory memory-IsFaithful (λ _. true) 1 9 user []
      (create_session user 1 ∷ []) (create_session user 1) first_start
