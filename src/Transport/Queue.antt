-- ===== src/Transport/Queue.antt =====
-- guardian/transport/local_queue.py. Each method holds one lock, so a call is one step. Times are
-- in microseconds.
pub mod Rows
pub mod Storing
pub mod Sending
pub mod Failing
pub mod Calls
pub mod Finding
mod Numbers
pub mod Views
pub mod Reported
mod Stored
pub mod Accepting
mod Life
pub mod Runs
pub mod Capacity
mod Times
pub mod Order
