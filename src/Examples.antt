-- ===== src/Examples.antt =====
-- The theorems at work on concrete shows.
mod Show
mod Commit
mod Rules
mod Chain
mod Bounds
mod Stream
mod Replies
mod Checks
mod Lots
