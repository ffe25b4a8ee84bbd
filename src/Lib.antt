-- ===== src/Lib.antt =====
-- fuguex-core: the states and the machine of a P-code emulator, modelled from the Rust sources.
--
-- The program. A `Machine` (fuguex-machine/src/machine.rs) lifts the instruction at a location,
-- gives each of its operations to an `Interpreter`, and follows the branch that comes back; its
-- memory is made of states (fuguex-state/src). A `FlatState` (flat.rs) is a vector of values with
-- two permission bits for each and a record of the blocks that were written, by which `restore` goes
-- back to the state that `fork` copied. A `ChunkState` (chunked.rs) allocates in a flat state: a
-- `ChunkList` says which ranges are free, an interval set which addresses are in use. A `PagedState` (paged.rs) maps ranges
-- of addresses to such states; a `PCodeState` (pcode.rs) is a paged memory with registers
-- (register.rs) and temporaries (unique.rs), which operands read and write. Hooks
-- (fuguex-hooks/src/types.rs) watch or turn the branches of an execution
-- (fuguex-concrete/src/tracker.rs, driver.rs). The interpreter of concrete bytes
-- (fuguex-concrete/src/interpreter.rs) reads and writes operands of a P-code state, tells its hooks
-- (hooks.rs) of each access and branch, and asks them about an access that the memory refuses, which
-- a policy (microx.rs, fuguex-microx/src/types.rs) may answer; intrinsics
-- (fuguex-intrinsics/src/lib.rs) have handlers by name.
--
-- The files.
--   Address            addresses of the fugue crate, a parameter `AddressOps`: read as `u64`
--   Flat.Access, Flat.Permissions
--                      `Access` and `Permissions`; Bytes: one address; Regions: the loops;
--                      Shapes: size and space
--   Flat.Dirty         `Block` and `DirtyBacking`; Blocks: the bits against the list
--   Flat.State         `FlatState`; Start: constructors; Valid: the invariant and every outcome;
--                      Moves and Copy: `copy_values`; Reads: reads after writes; Restore and
--                      Runs: `restore` after any calls
--   Chunked.ChunkList  `ChunkList`; Tiled: the invariant and `allocate`; Release: `deallocate`;
--                      Reallocate: `reallocate`; Faults: `reallocate` with a free chunk before
--   Chunked.Heap       `ChunkState`; Allocation: `allocate_with`; Deallocation: `deallocate`, `restore`;
--                      Moves: `reallocate` to another place
--   Paged.IntervalMap  the interval map of the iset crate, a parameter; Entries: lists of entries
--   Paged.Segments     `Segment` and the errors (paged.rs)
--   Paged.State        `PagedState`; Resolve: where an access goes, before and after a write;
--                      Follows, Keeps and Runs: `restore` after any calls; Reads: reads after writes;
--                      Added: new mappings; Rest: `view_values_from` and reported addresses
--   Register           `RegisterState` (register.rs); Values: what a register holds after it is set
--   Unique             `UniqueState` (unique.rs)
--   PCode              `PCodeState` (pcode.rs); Bytes: operands and bytes; Operands and Addresses:
--                      what is read after it is set; Runs: `restore` after writes
--   Machine.Types      `Bound`, `Branch`, `StepState`; Branching: the two forms of a branch
--   Machine.Interpreter
--                      the trait `Interpreter` as a record of functions, and the dispatch of `step`
--   Machine.Engine     `Machine::step` and `step_until`; Total: rounds enough for `step`;
--                      Errors: what is kept; Forgiving: `ignore_errors` against an interpreter that
--                      does not fail; Until: `step_until` against a step relation
--   Paths              hook outcomes, `BranchTracker`, `PathWalker`, `RandomWalker`; Replay: runs
--   Microx             answers to refused accesses, and `PolicyHook`
--   Intrinsics         `IntrinsicHandler`
--   Concrete.Hooks     the trait `HookConcrete` as a record of functions
--   Concrete.Store     what the interpreter uses of its state, of the translator and of bytes;
--                      PCodeStore: the P-code state as such a store
--   Concrete.Context   `ConcreteContext`, and the loops on its hooks
--   Concrete.Values    accesses to operands; Quiet: hooks that only watch; Refused: the policy of zeros
--   Concrete.Branches  branches, calls and returns; Flips and Skips: hooks that turn them
--   Concrete.Lifting   operations on values of operands; Integers and Floats: each of them;
--                      Division: by zero
--   Concrete.Operations
--                      the other operations; Offsets: of `load` and `store`; Cache: `lift`;
--                      Registered: hooks and intrinsics by name; Instance: the interpreter as the
--                      machine's; Forward, Targets and Ends: how long the machine runs it
-- Modules whose names end in Tests apply the theorems to concrete values.
--
-- Conventions. A method takes the state and gives back the new one; `Result` has a third case for a
-- panic, and where a panic is the only failure it is `none` of an `Option`. A name of the source is
-- kept; `take_branch` is `StepState::branch`, and `reached?` is `Bound::reached`, whose names
-- constructors have. A `usize` has 64 bits; sums that can wrap are written with their remainder.
-- A mutable view is a function from the values that it shows to those that its borrower leaves.
--
-- Fuel. `step` calls itself and loops, `step_until` loops; both run on fuel, the first on rounds,
-- the second on instructions. An instruction that branches back to itself runs for ever: where the
-- constant branches of the lifted instruction go forward, two rounds more than it has operations
-- are enough for `step`. Other loops are structural recursion.
--
-- Parameters. `AddressOps`: address arithmetic. `IrOps`: address values and locations.
-- `IntervalOps`: the interval set of the iset crate, with the laws of `has`; it panics on an empty
-- range. `Interpreter`: any
-- implementation of the trait. The enum `PCodeOp` is the fugue crate's: its constructors are those
-- that the exhaustive match of `step` names, and `PCode` has the three parts that the code reads.
-- `Registers`: what the hooks read from the state. A register is an offset and a size, and the
-- conversions of its values are arguments.
-- `IntervalMapOps`: the interval map of the iset crate, with laws on its entries. `NameOps`:
-- equality of segment names. `ByteOps`: byte order and byte casts of the fugue crate; its `Operand`
-- has the variants that the exhaustive match of `with_operand_values` names.
--
-- `Store`: the state of the concrete interpreter, with the law that a write is read back.
-- `TranslatorOps`: the translator's lifting and the ids of its spaces. `BitVecOps`, `FormatOps`,
-- `SubpieceOps`, `BoolBytes`: bit vectors, floats and bytes of the fugue crate. `KeyOps`: equality of
-- names of intrinsics and hooks.
--
-- Not modelled: the loader, which is input and output; the derive macro, which generates code; debug
-- assertions; the sharing of the cache of lifted instructions between a context and its forks.
pub mod Prelude
pub mod Address
pub mod Flat
pub mod Chunked
pub mod Paged
pub mod Register
pub mod Unique
pub mod PCode
pub mod Machine
pub mod Paths
pub mod Microx
pub mod Intrinsics
pub mod Concrete
