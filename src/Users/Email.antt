-- ===== src/Users/Email.antt =====
-- `EmailVO` (src/shared/domain/value-objects/compound/email.vo.ts) with its pattern
-- `/^[^\s@]+@[^\s@]+\.[^\s@]+$/`. Lower case depends on tables of characters and is a parameter.
pub mod Pattern
use stocka_server.Prelude.{
  Bool, true, false, not, ◌&&◌, ◌||◌, ◌==◌, List, [], ◌∷◌, if◌then◌else◌, Text, is_space, trim, ℕ,
}
use stocka_server.Shared.Outcome.{Outcome, ok, throw}

-- `[^\s@]`
unfoldable pub is_plain : ℕ → Bool
is_plain c = not (is_space c) && not (c == b'@')

-- After the `@` and one unit: the rest has a dot with a unit behind it, and plain units only.
abbrev pub dot_and_more : ℕ → Text → Bool → Bool
dot_and_more c [] rest = false
dot_and_more c (d ∷ s) rest = c == b'.' || rest

unfoldable pub all_plain : Text → Bool
all_plain [] = true
all_plain (c ∷ s) = is_plain c && all_plain s

unfoldable pub has_dot : Text → Bool
has_dot [] = false
has_dot (c ∷ s) = dot_and_more c s (has_dot s)

-- `[^\s@]+\.[^\s@]+$`
abbrev pub is_domain : Text → Bool
is_domain [] = false
is_domain (c ∷ s) = all_plain (c ∷ s) && has_dot s

-- `[^\s@]*@`, and the domain.
unfoldable pub after_local : Text → Bool
after_local [] = false
after_local (c ∷ s) =
    let rest = after_local s in if c == b'@' then is_domain s else is_plain c && rest

-- `EMAIL_PATTERN.test(value)`
unfoldable pub is_email : Text → Bool
unfolding after_local
is_email [] = false
is_email (c ∷ s) = is_plain c && after_local s

-- `new EmailVO(value)`: its value, or `InvalidEmailFormatException`.
unfoldable pub create_email : {E : Type 0} → (Text → Text) → (Text → E) → Text → Outcome E Text
create_email to_lower invalid value =
    let email = to_lower (trim value) in if is_email email then ok email else throw (invalid email)
