-- ===== src/Client/Ready.antt =====
-- Workloads whose calls always return, in a build without assertions: uniform requests over the
-- loaded records, uniform fields and scan lengths, values of one positive length that a string can
-- hold, and operations of which some predicate is true.
pub mod Operations
pub mod Draws
use ycsb.Prelude.{◌≤◌, ◌<◌, ◌≡◌, List, ◌∷◌}
use ycsb.Prelude.Int.{pos_part}
use ycsb.Prelude.Lists.{All}
use ycsb.Platform.{Platform}
use ycsb.Generators.Counter as Counter
use ycsb.Generators.Counter.{CounterGenerator}
use ycsb.Generators.Uniform as Uniform
use ycsb.Generators.Uniform.{ConstGenerator, UniformGenerator}
use ycsb.Generators.Discrete.{DiscreteGenerator}
use ycsb.Generators.Discrete.Listed as Listed
use ycsb.Generators.Any.{counter, constant, uniform}
use ycsb.Workload.{Operation, insert, read, update, delete, scan, read_modify_write, CoreWorkload}

-- The operations that leave every record in place and answer from its value.
abbrev pub IsServed : Operation → Type 0
IsServed read = Unit
IsServed update = Unit
IsServed insert = Unit
IsServed read_modify_write = Unit
IsServed delete = ⊥
IsServed scan = ⊥

module _ (P : Platform) (Allowed : Operation → Type 0) where
  -- Only allowed operations are drawn, and there is one.
  pub record Serves (g : DiscreteGenerator P Operation) : Type 0 where
    pub valid : Listed.IsValid P g
    pub served : All (λ p. Allowed p.0) g.values
    pub first : Operation × P.Double
    pub others : List (Operation × P.Double)
    pub some_operation : g.values ≡ first ∷ others

  pub record Ready (w : CoreWorkload P) : Type 0 where
    pub requests :
        (u : UniformGenerator P) × (w.key_chooser ≡ uniform u)
        × Uniform.IsOver P 0 (Counter.last w.insert_key_sequence) u
    pub scans : (u : UniformGenerator P) × (w.scan_len_chooser ≡ uniform u)
    pub fields : (u : UniformGenerator P) × (w.field_chooser ≡ uniform u)
    pub lengths :
        (c : ConstGenerator) × (w.field_len_generator ≡ constant c)
        × (0 < c.constant)
        × (c.constant ≤ P.max_size)
    pub keys : (c : CounterGenerator) × (w.key_generator ≡ counter c)
    pub operations : Serves w.op_chooser
    pub some_field : 0 < pos_part w.field_count
