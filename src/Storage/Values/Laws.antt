-- ===== src/Storage/Values/Laws.antt =====
-- What a value object of the storage context is, and when its factory makes one.
use stocka_server.Prelude.{ℕ, ◌≤◌, ◌≡◌, true, arith, length, Text, trim, trim_idem}
use stocka_server.Shared.Outcome.{ok}
use stocka_server.Storage.Values.{
  Value, create_name, create_description, create_icon, create_address, create_room_type_name,
  create_color, is_hex_color,
}

-- A trimmed text of `low` to `high` units.
pub record IsBounded (low high : ℕ) (s : Text) : Type 0 where
  pub trimmed : trim s ≡ s
  pub long_enough : low ≤ length s
  pub short_enough : length s ≤ high

abbrev pub IsName : Text → Type 0
IsName = IsBounded 1 100

abbrev pub IsDescription : Text → Type 0
IsDescription = IsBounded 5 300

abbrev pub IsIcon : Text → Type 0
IsIcon = IsBounded 1 100

abbrev pub IsAddress : Text → Type 0
IsAddress = IsBounded 1 200

abbrev pub IsRoomTypeName : Text → Type 0
IsRoomTypeName = IsBounded 1 50

pub record IsColor (s : Text) : Type 0 where
  pub trimmed : trim s ≡ s
  pub hexadecimal : is_hex_color s ≡ true

-- A factory that trims and then accepts exactly the texts of `P`, as they are.
pub record IsFactory (P : Text → Type 0) (create : Text → Value) : Type 0 where
  pub sound : (s v : Text) → create s ≡ ok v → P v × (v ≡ trim s)
  pub complete : (s : Text) → P (trim s) → create s ≡ ok (trim s)
  -- made again from its own value, a value object is the same
  pub again : (v : Text) → P v → create v ≡ ok v

-- The name factory accepts exactly the texts whose trimmed form has 1 to 100 units, stores that
-- form, and gives a stored name back as it is.
pub create_name-IsFactory : IsFactory IsName create_name
unfolding create_name
create_name-IsFactory = record {
  sound = λ s v h. ground (arith, trim_idem s);
  complete = λ s h. ground arith;
  again = λ v h. ground arith;
}

pub create_description-IsFactory : IsFactory IsDescription create_description
unfolding create_description
create_description-IsFactory = record {
  sound = λ s v h. ground (arith, trim_idem s);
  complete = λ s h. ground arith;
  again = λ v h. ground arith;
}

pub create_icon-IsFactory : IsFactory IsIcon create_icon
unfolding create_icon
create_icon-IsFactory = record {
  sound = λ s v h. ground (arith, trim_idem s);
  complete = λ s h. ground arith;
  again = λ v h. ground arith;
}

pub create_address-IsFactory : IsFactory IsAddress create_address
unfolding create_address
create_address-IsFactory = record {
  sound = λ s v h. ground (arith, trim_idem s);
  complete = λ s h. ground arith;
  again = λ v h. ground arith;
}

pub create_room_type_name-IsFactory : IsFactory IsRoomTypeName create_room_type_name
unfolding create_room_type_name
create_room_type_name-IsFactory = record {
  sound = λ s v h. ground (arith, trim_idem s);
  complete = λ s h. ground arith;
  again = λ v h. ground arith;
}

-- The color factory accepts exactly the texts whose trimmed form is `#` and six hexadecimal digits,
-- stores that form, and gives a stored color back as it is.
pub create_color-IsFactory : IsFactory IsColor create_color
unfolding create_color
create_color-IsFactory = record {
  sound = λ s v h. ground (arith, trim_idem s);
  complete = λ s h. ground arith;
  again = λ v h. ground arith;
}
