-- ===== src/Messages.antt =====
-- src/core/message_aggregator.py, src/core/message_events.py and src/core/message_projection.py:
-- from the raw events of a session to the messages that its readers see.
pub mod Uploads
pub mod Events
pub mod Notices
pub mod Aggregator
pub mod Feeding
pub mod Quiet
pub mod Conservation
pub mod Contents
pub mod Previews
pub mod Walking
pub mod Bounds
pub mod StableOrder
pub mod Borders
pub mod Shifts
pub mod ClosedPrefix
pub mod Projection
pub mod Folding
pub mod View
pub mod Pages
pub mod Reading
mod Tests
pub mod PageBodies
