-- ===== src/Unused.antt =====
-- backend/scripts/check_unused_functions.py: which functions, classes and constants it reports. Reading
-- the files and printing are left out; `ast.parse` and the tests on Python's characters are parameters.
pub mod Syntax
pub mod Ignored
pub mod Known
pub mod Extract
pub mod Report
