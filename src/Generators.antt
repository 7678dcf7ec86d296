-- ===== src/Generators.antt =====
-- core/generator.h and the generators of core/: one module for each class.
pub mod Counter
pub mod Uniform
pub mod Zipfian
pub mod Scrambled
pub mod Latest
pub mod Discrete
pub mod Any
