-- ===== src/Runs.antt =====
-- src/core/runs.py: what the files and processes on disk say of an agent run.
--
-- The facts are arguments: what /proc shows of a process, what the raw log holds, the scan of the
-- processes that hold it. `translate` is the backend's, a parameter with its own state. Times are
-- microseconds. A JSON value keeps what the code tells apart.
pub mod Process
pub mod Log
pub mod Resolve
pub mod Liveness
pub mod RawLines
pub mod Table
mod Tests
