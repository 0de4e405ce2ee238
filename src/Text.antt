-- ===== src/Text.antt =====
-- modules/console/panel.c, "log sources": `struct textbuf` in Buffer, and what the sources push into
-- it: the journal in Journal, the kernel's ring in Kmsg, and the other lists in Lists.
pub mod Buffer
pub mod Journal
pub mod Kmsg
pub mod Lists
pub mod Pushes
pub mod Lines
