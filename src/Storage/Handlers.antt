-- ===== src/Storage/Handlers.antt =====
-- The command handlers of the storage context (application/commands), in four groups.
pub mod Transitions
pub mod Editing
pub mod Creation
pub mod TypeChange
pub mod Parts
pub mod Maintains
pub mod Requests
pub mod Calls
