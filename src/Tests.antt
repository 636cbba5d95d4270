-- ===== src/Tests.antt =====
-- The theorems at concrete inputs, and runs of the definitions.
mod Sample
mod Texts
mod Objects
mod Events
mod Policies
mod Memories
mod Devices
mod Keys
mod Shells
mod Pagings
mod Users
mod Tables
