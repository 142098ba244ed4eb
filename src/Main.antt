-- ===== src/Main.antt =====
-- src/bdremoteng.c: the main program.
pub mod Options
pub mod Program
pub mod Usage
