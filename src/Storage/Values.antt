-- ===== src/Storage/Values.antt =====
-- The value objects of the storage context (domain/value-objects). A value object is the text it
-- wraps: `ensure_*` is the class's constructor with its `ensureValid`, `create_*` its factory.
pub mod Laws
use stocka_server.Prelude.{
  ℕ, zero, suc, Bool, true, false, ◌&&◌, ◌||◌, [], ◌∷◌, leb, ltb, ◌==◌, if◌then◌else◌, length, Text,
  trim,
}
use stocka_server.Shared.Outcome.{Outcome, ok, throw}
use stocka_server.Storage.Exceptions.{
  StorageException, is_empty, too_short, too_long, malformed, invalid_name, invalid_description,
  invalid_icon, invalid_color, invalid_address, invalid_room_type_name,
}

-- A value object, or the exception that its constructor throws.
abbrev pub Value : Type 0
Value = Outcome StorageException Text

-- `StorageNameVO`
ensure_name : Text → Value
ensure_name s =
    if length s == 0
    then throw (invalid_name is_empty)
    else if ltb 100 (length s)
    then throw (invalid_name too_long)
    else ok s

unfoldable pub create_name : Text → Value
unfolding ensure_name
create_name s = ensure_name (trim s)

-- `StorageDescriptionVO`
ensure_description : Text → Value
ensure_description s =
    if ltb (length s) 5
    then throw (invalid_description too_short)
    else if ltb 300 (length s)
    then throw (invalid_description too_long)
    else ok s

unfoldable pub create_description : Text → Value
unfolding ensure_description
create_description s = ensure_description (trim s)

-- `StorageIconVO`
ensure_icon : Text → Value
ensure_icon s =
    if length s == 0
    then throw (invalid_icon is_empty)
    else if ltb 100 (length s)
    then throw (invalid_icon too_long)
    else ok s

unfoldable pub create_icon : Text → Value
unfolding ensure_icon
create_icon s = ensure_icon (trim s)

-- `StorageAddressVO`
ensure_address : Text → Value
ensure_address s =
    if length s == 0
    then throw (invalid_address is_empty)
    else if ltb 200 (length s)
    then throw (invalid_address too_long)
    else ok s

unfoldable pub create_address : Text → Value
unfolding ensure_address
create_address s = ensure_address (trim s)

-- `RoomTypeNameVO`
ensure_room_type_name : Text → Value
ensure_room_type_name s =
    if length s == 0
    then throw (invalid_room_type_name is_empty)
    else if ltb 50 (length s)
    then throw (invalid_room_type_name too_long)
    else ok s

unfoldable pub create_room_type_name : Text → Value
unfolding ensure_room_type_name
create_room_type_name s = ensure_room_type_name (trim s)

-- `[0-9A-Fa-f]`
pub is_hex_digit : ℕ → Bool
is_hex_digit c =
    (leb b'0' c && leb c b'9') || (leb b'A' c && leb c b'F') || (leb b'a' c && leb c b'f')

-- `[0-9A-Fa-f]{n}$`
pub hex_digits : ℕ → Text → Bool
hex_digits zero [] = true
hex_digits zero (_ ∷ _) = false
hex_digits (suc _) [] = false
hex_digits (suc n) (c ∷ s) = is_hex_digit c && hex_digits n s

-- `HEX_PATTERN`, /^#[0-9A-Fa-f]{6}$/
unfoldable pub is_hex_color : Text → Bool
unfolding hex_digits is_hex_digit
is_hex_color [] = false
is_hex_color (c ∷ s) = c == b'#' && hex_digits 6 s

-- `StorageColorVO`
ensure_color : Text → Value
ensure_color s = if is_hex_color s then ok s else throw (invalid_color malformed)

unfoldable pub create_color : Text → Value
unfolding ensure_color
create_color s = ensure_color (trim s)
