-- ===== src/Concrete.antt =====
-- fuguex-concrete/src/interpreter.rs and hooks.rs: the interpreter of P-code on concrete bytes, which
-- tells its hooks of what it does and lets them change it.
pub mod Hooks
pub mod Store
pub mod Context
pub mod Values
pub mod Branches
pub mod Lifting
pub mod Integers
pub mod Floats
pub mod Operations
pub mod Instance
pub mod Quiet
pub mod Flips
pub mod Skips
pub mod Division
pub mod Refused
pub mod Forward
pub mod Targets
pub mod Ends
pub mod Offsets
pub mod Cache
pub mod PCodeStore
pub mod Registered
mod Tests
mod EndsTests
