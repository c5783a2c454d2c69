-- ===== src/Storage/Exceptions.antt =====
-- The exceptions of the storage context (domain/exceptions, application/errors), one constructor
-- for each class, with the arguments that its constructor takes.
use stocka_server.Prelude.{Text}

-- The message of a validation exception: which check of `ensureValid` refused the value.
pub data Fault : Type 0 where
  is_empty too_short too_long malformed : Fault

pub data StorageException : Type 0 where
  invalid_name invalid_description invalid_icon invalid_color : Fault → StorageException
  invalid_address invalid_room_type_name : Fault → StorageException
  invalid_uuid : Text → StorageException
  already_archived already_frozen archived_cannot_be_frozen : Text → StorageException
  not_archived not_frozen not_found : Text → StorageException
  name_already_exists address_required_for_warehouse : Text → StorageException
  type_locked_while_archived type_locked_while_frozen : Text → StorageException
  warehouse_requires_tier_upgrade store_room_limit_reached : StorageException
  custom_room_limit_reached container_without_id : StorageException
  database : StorageException  -- what a failed statement throws
