-- ===== src/Bridge/Invariant.antt =====
-- The invariant of the processes of bridge.c: each semaphore, with the processes that hold it, adds
-- up to one, the shared numbers count the processes that wait, and the bridge stands right for
-- whoever has the permission.
mod Counts
mod Steps
mod Methods
mod Reading
pub use Counts.*
pub use Reading.{method-Held}
