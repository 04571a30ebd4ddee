-- ===== src/Syscalls.antt =====
-- pm/vm_syscalls.c: the system calls, from the shared guards to the dispatcher.
pub mod Context
pub mod Handlers
pub mod Dispatch
pub mod Keeps
pub mod Frame
pub mod Framed
pub mod Ranges
