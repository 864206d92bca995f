-- ===== src/Examples.antt =====
-- Runs of the model of src/ on concrete inputs, and the theorems applied to them.
pub mod Text
pub mod Threads
pub mod Wire
pub mod Buffers
pub mod Beats
pub mod Messages
