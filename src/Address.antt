-- ===== src/Address.antt =====
-- `fugue::ir::Address` and `AddressSpace`, which the fugue crate defines and this workspace only
-- uses. An address is read as the `u64` that `u64::from` and `usize::from` give (a `usize` has 64
-- bits); its arithmetic and `Address::new` are a parameter with the behaviour the code relies on.
use fuguex_core.Prelude.{ℕ, ◌+◌, ◌-◌, ◌%◌, ◌^◌, ◌≤◌, ◌<◌, ◌≡◌, refl, arith}

abbrev pub u64_limit : ℕ
u64_limit = 2 ^ 64

pub record AddressOps : Type 0 where
  -- `address + n`
  pub add : ℕ → ℕ → ℕ
  -- `address - address`
  pub sub : ℕ → ℕ → ℕ
  -- `Address::new(space, v)` for the space of the given index
  pub new : ℕ → ℕ → ℕ
  -- the number of addresses of a space
  pub space_limit : ℕ → ℕ
  pub add_lem : (a n : ℕ) → a + n < u64_limit → add a n ≡ a + n
  pub sub_lem : (a b : ℕ) → b ≤ a → a < u64_limit → sub a b ≡ a - b
  pub new_lem : (space v : ℕ) → v < space_limit space → new space v ≡ v
  -- the address after the last one is the first: code tests for it by `a + 1 < a`
  pub add_wraps : add (u64_limit - 1) 1 ≡ 0

-- Addresses that wrap at 64 bits, in spaces of 2 ^ 64 bytes.
abbrev pub wrapping : AddressOps
wrapping = record {
  add = λ a n. (a + n) % u64_limit;
  sub = λ a b. (a + u64_limit - b) % u64_limit;
  new = λ space v. v % u64_limit;
  space_limit = λ space. u64_limit;
  add_lem = λ a n h. omega arith;
  sub_lem = λ a b h k. omega arith;
  new_lem = λ space v h. omega arith;
  add_wraps = refl;
}
