-- ===== src/Tests.antt =====
-- The properties at concrete inputs, and runs that can be followed in the source.
mod Systems
mod Panel
mod Loader
mod Views
mod Daemon
mod Machine
mod Net
mod Collect
mod Text
mod Start
mod Golden
mod Frame
