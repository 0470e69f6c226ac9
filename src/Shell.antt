-- ===== src/Shell.antt =====
-- support/hello-world-shell: the example shell and its file system.
pub mod Paths
pub mod WriteFs
pub mod Syntax
pub mod State
pub mod Ran
pub mod Reading
pub mod Builtins
pub mod Interpreter
pub mod Interactive
