-- ===== src/Storage/Events.antt =====
-- The domain events of the storage context (domain/events).
use stocka_server.Prelude.{Option, Text}
use stocka_server.Storage.Model.{StorageType}

-- The first three arguments of every event.
pub record Subject : Type 0 where
  pub storage_uuid : Text
  pub tenant_uuid : Text
  pub actor_uuid : Text

pub data StorageEvent : Type 0 where
  created : Subject → StorageType → Text → StorageEvent
  archived frozen reactivated restored : Subject → StorageEvent
  permanently_deleted : Subject → StorageType → Text → StorageEvent
  name_changed icon_changed color_changed type_changed : Subject → Text → Text → StorageEvent
  description_changed address_changed : Subject → Option Text → Option Text → StorageEvent
