-- ===== src/Storage.antt =====
-- The storage context (src/bounded-contexts/storage): warehouses, store rooms and custom rooms.
pub mod Exceptions
pub mod Values
pub mod Model
pub mod Events
pub mod Lifecycle
pub mod Update
pub mod Valid
pub mod Capabilities
pub mod Services
pub mod Policy
pub mod View
pub mod Warehouse
pub mod StoreRoom
pub mod CustomRoom
pub mod Listing
pub mod Handlers
mod Tests
