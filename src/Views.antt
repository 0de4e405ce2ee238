-- ===== src/Views.antt =====
-- modules/console/panel.c, "views" and the first half of "key handling": the dashboard, the menu
-- and the pager, and what an action or a typed byte does in each: the globals in State, the pager's
-- position in Pager, the frames in Draw and the handlers in Actions.
pub mod State
pub mod Sources
pub mod Pager
pub mod Draw
pub mod Actions
pub mod Invariant
pub mod Draws
pub mod Effects
pub mod Reading
