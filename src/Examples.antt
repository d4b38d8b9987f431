-- ===== src/Examples.antt =====
-- Tests, and the theorems at concrete inputs.
mod Machine
mod Selecting
mod Ranking
mod Serving
mod Commands
mod Watching
mod Linking
mod Processes
mod Drawing
mod Running
mod Asking
