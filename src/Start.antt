-- ===== src/Start.antt =====
-- modules/console/panel.c: `main` and what it starts: the terminal in Terminal, the key socket in
-- Sockets, the subcommands and their exit statuses in Commands.
pub mod Terminal
pub mod Sockets
pub mod Commands
pub mod Descriptors
pub mod Restore
pub mod Dispatch
pub mod Hermetic
pub mod Process
pub mod Reached
