-- ===== src/Examples.antt =====
-- Each theorem at an input, and runs of the definitions.
mod Searches
mod Pages
mod Trees
mod Threads
mod Tables
mod Routes
mod Dpus
mod Locks
mod Hosts
mod Skews
mod Merges
mod Loads
mod Runs
mod Batches
