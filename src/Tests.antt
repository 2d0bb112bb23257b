-- ===== src/Tests.antt =====
-- Concrete inputs, the theorems at them, and runs of the definitions.
mod Samples
mod Policies
mod Fallbacks
mod Serving
mod Advising
mod Registering
mod Refreshing
mod Access
mod Requesting
mod Fetching
mod Owning
mod Administering
mod Uploading
mod Paging
mod Publishing
mod Auditing
mod Streaming
