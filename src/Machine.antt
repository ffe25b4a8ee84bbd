-- ===== src/Machine.antt =====
-- The interpreter loop of fuguex-machine: bounds, branches and the step state (Types), the
-- operations of an interpreter (Interpreter), and the machine that runs them (Engine).
pub mod Types
pub mod Interpreter
pub mod Engine
mod Tests
