-- ===== src/Report.antt =====
-- The reports that the shell and the system calls print: events (kernel/event.c), rules
-- (kernel/policy.c) and objects (kernel/object.c).
pub mod Events
pub mod Policies
pub mod Objects
pub mod Shows
pub mod Inspect
pub mod Chain
