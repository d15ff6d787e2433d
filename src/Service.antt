-- ===== src/Service.antt =====
-- internal/service: the task service over its repositories, the queue and the calendar hook.
pub mod World
pub mod Repository
pub mod Publish
pub mod Effects
pub mod Frame
pub mod Total
pub mod Series
pub mod Complete
pub mod Delete
pub mod Create
pub mod Mute
pub mod Reschedule
pub mod Update
pub mod Inventory
pub mod History
