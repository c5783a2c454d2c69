-- ===== src/Authentication/Password.antt =====
-- `PasswordVO` (src/bounded-contexts/authentication/domain/value-objects/password.vo.ts) and the
-- patterns of src/common/constants/validation.constants.ts that it tests.
use stocka_server.Prelude.{
  ℕ, Bool, false, ◌&&◌, ◌||◌, ◌==◌, [], ◌∷◌, if◌then◌else◌, ltb, leb, Text, codes, length,
}
use stocka_server.Shared.Outcome.{Outcome, ok, throw}
use stocka_server.Authentication.Services.{
  AuthError, invalid_password, too_short, no_uppercase, no_digit, no_special,
}

-- A pattern of one character, tested anywhere in a text.
unfoldable pub has : (ℕ → Bool) → Text → Bool
has p [] = false
has p (c ∷ s) = p c || has p s

abbrev pub is_uppercase : ℕ → Bool
is_uppercase c = leb b'A' c && leb c b'Z'

abbrev pub is_digit : ℕ → Bool
is_digit c = leb b'0' c && leb c b'9'

unfoldable pub is_special : ℕ → Bool
unfolding has
is_special c = has (λ d. d == c) (codes "!@#$%^&*()_+-=[]{};':\"\\|,.<>/?")

abbrev pub password_min_length : ℕ
password_min_length = 10

-- `new PasswordVO(value)`
unfoldable pub create_password : Text → Outcome AuthError Text
create_password value =
    if ltb (length value) password_min_length
    then throw (invalid_password too_short)
    else if has is_uppercase value
    then if has is_digit value
      then if has is_special value then ok value else throw (invalid_password no_special)
      else throw (invalid_password no_digit)
    else throw (invalid_password no_uppercase)
