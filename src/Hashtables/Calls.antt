-- ===== src/Hashtables/Calls.antt =====
-- Sequences of calls of a table's methods.
use ycsb.Prelude.{ℕ, Bool, Option, List, [], ◌∷◌}
use ycsb.Prelude.Text.{Bytes}
use ycsb.Hashtables.{StringHashtable}

-- A call of a method with its arguments, and what the methods return.
pub data Call (V : Type 0) : Type 0 where
  get_call : Bytes → Call V
  insert_call : Option Bytes → V → Call V
  update_call : Bytes → V → Call V
  remove_call : Bytes → Call V
  entries_call : Option Bytes → ℕ → Call V
  size_call : Call V

pub data Answer (V : Type 0) : Type 0 where
  value_answer : V → Answer V
  flag_answer : Bool → Answer V
  pairs_answer : List (Bytes × V) → Answer V
  size_answer : ℕ → Answer V

module _ {V : Type 0} (T : StringHashtable V) where
  unfoldable pub call : Call V → T.State → Answer V × T.State
  call (get_call key) t = (value_answer (T.get t key), t)
  call (insert_call key value) t = let r = T.insert key value t in (flag_answer r.0, r.1)
  call (update_call key value) t = let r = T.update key value t in (value_answer r.0, r.1)
  call (remove_call key) t = let r = T.remove key t in (value_answer r.0, r.1)
  call (entries_call key n) t = (pairs_answer (T.entries t key n), t)
  call size_call t = (size_answer (T.size t), t)

  -- The table behind calls one after the other.
  unfoldable pub after_calls : List (Call V) → T.State → T.State
  after_calls [] t = t
  after_calls (c ∷ cs) t = after_calls cs (call c t).1
