-- ===== src/Executors.antt =====
-- app/workers/executors.py: what runs the jobs of each type. `repr` is the text that `str()` makes of
-- a list, a dict or a time.
pub mod Values
pub mod Durations
pub mod Selection
pub mod Prompts
pub mod Voices
pub mod Google
pub mod Merge
pub mod Registry
