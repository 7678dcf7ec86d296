-- ===== src/Tests/Tables.antt =====
-- Examples about the strings and tables of lib.
use ycsb.Prelude.{true, ◌↔◌}
use ycsb.HashString.{equals, equals-wrap_iff}
use ycsb.Prelude.{◌++◌, ℕ, zero, suc, ◌≤◌, List, ◌^◌, ◌<◌, ◌≡◌, refl, some, [], ◌∷◌}
use ycsb.Prelude.Text.{str}
use ycsb.HashString.{wrap, sdbm_hash, sdbm_hash-lt}
use ycsb.Hashtables.{StringHashtable, Follows}
use ycsb.Hashtables.Calls.{
  Call, Answer, get_call, insert_call, update_call, remove_call, call, after_calls,
}
use ycsb.Hashtables.Container.{Container}
use ycsb.Hashtables.ListMap.{list_map, list_map-IsMap}
use ycsb.Hashtables.Stl.{StlHashtable, stl_table, size}
use ycsb.Hashtables.TbbRand.{rand_table, rand_size}
use ycsb.Hashtables.TbbScan.{scan_table, scan_size}
use ycsb.Hashtables.Runs.{stl_run, tbb_runs}
use ycsb.Hashtables.Lock.{
  Phase, outside, inside, working, leaving, Thread, System, set, lock, begin, end, unlock, Reach,
  here, then_step, starting,
}
use ycsb.Hashtables.Lock.Sequential.{OneByOne, own, current, in_order, one_by_one}
use ycsb.Prelude.{arith}
use ycsb.Hashtables.Lock.Deadlock.{Finished}
use ycsb.Hashtables.Lock.Ending.{can_end}

sdbm_hash-lt_example : sdbm_hash (str "user1") < 2 ^ 64
sdbm_hash-lt_example = sdbm_hash-lt (str "user1")

equals-wrap_iff_example : (equals (wrap (str "a")) (wrap (str "b")) ≡ true) ↔ (str "a" ≡ str "b")
equals-wrap_iff_example = equals-wrap_iff (str "a") (str "b")

-- Inserts of which the second fails, an update, a removal and a look.
abbrev some_calls : List (Call ℕ)
some_calls =
    insert_call (some (str "a")) 1
    ∷ insert_call (some (str "a")) 2
    ∷ insert_call (some (str "b")) 3
    ∷ update_call (str "b") 4
    ∷ remove_call (str "a")
    ∷ get_call (str "b")
    ∷ []

abbrev numbers : Container ℕ
numbers = list_map

stl_run_example :
    Follows
      (stl_table numbers 0)
      0
      (λ t key. numbers.find (wrap key) t.table)
      (after_calls (stl_table numbers 0) some_calls (record { table = []; copies = 0 }))
      (str "b")
      (str "a")
      5
      1
    × (size numbers 0
          (after_calls (stl_table numbers 0) some_calls (record { table = []; copies = 0 }))
        ≤ (after_calls (stl_table numbers 0) some_calls (record { table = []; copies = 0 })).copies)
stl_run_example = stl_run numbers list_map-IsMap 0 some_calls (str "b") (str "a") 5 1

tbb_runs_example :
    Follows
      (rand_table numbers 0)
      0
      (λ t key. numbers.find (wrap key) t.table)
      (after_calls (rand_table numbers 0) some_calls (record { table = []; copies = 0 }))
      (str "b")
      (str "a")
      5
      1
    × (rand_size numbers 0
          (after_calls (rand_table numbers 0) some_calls (record { table = []; copies = 0 }))
        ≤ (after_calls
            (rand_table numbers 0)
            some_calls
            (record { table = []; copies = 0 })).copies)
    × Follows
        (scan_table numbers 0)
        0
        (λ t key. numbers.find (wrap key) t.table)
        (after_calls (scan_table numbers 0) some_calls (record { table = []; copies = 0 }))
        (str "b")
        (str "a")
        5
        1
    × (scan_size numbers 0
          (after_calls (scan_table numbers 0) some_calls (record { table = []; copies = 0 }))
        ≤ (after_calls
            (scan_table numbers 0)
            some_calls
            (record { table = []; copies = 0 })).copies)
tbb_runs_example = tbb_runs numbers list_map-IsMap 0 some_calls (str "b") (str "a") 5 1

abbrev shared : StringHashtable ℕ
shared = stl_table numbers 0

abbrev new_shared : StlHashtable numbers
new_shared = record { table = []; copies = 0 }

-- Two threads that insert for the same key.
abbrev both_insert : ℕ → List (Call ℕ)
both_insert zero = insert_call (some (str "a")) 1 ∷ []
both_insert (suc zero) = insert_call (some (str "a")) 2 ∷ get_call (str "a") ∷ []
both_insert (suc (suc _)) = []

-- The second thread has inserted and the first one is at it.
abbrev after_second : StlHashtable numbers
after_second = (call shared (insert_call (some (str "a")) 2) new_shared).1

abbrev second_answer : Answer ℕ
second_answer = (call shared (insert_call (some (str "a")) 2) new_shared).0

abbrev ended_second : List (Call ℕ × Answer ℕ)
ended_second = (insert_call (some (str "a")) 2, second_answer) ∷ []

abbrev first_call : Call ℕ
first_call = insert_call (some (str "a")) 1

abbrev second_call : Call ℕ
second_call = insert_call (some (str "a")) 2

abbrev look : Call ℕ
look = get_call (str "a")

abbrev first : Phase shared → Thread shared
first p = record { phase = p; todo = []; ended = [] }

abbrev second : Phase shared → List (Call ℕ × Answer ℕ) → Thread shared
second p done = record { phase = p; todo = look ∷ []; ended = done }

abbrev half_state : System shared
half_state = record {
  table = after_second;
  holder = some 0;
  threads = set shared 0 (first (working first_call after_second)) (
      set shared 0 (first (inside first_call)) (
        set shared 1 (second outside ended_second) (
          set shared 1 (second leaving ended_second) (
            set shared 1 (second (working second_call new_shared) []) (
              set shared 1 (second (inside second_call) [])
                (starting shared new_shared both_insert).threads)))));
  log = (1, second_call, second_answer) ∷ [];
}

half_way : Reach shared (starting shared new_shared both_insert) half_state
unfolding set starting
half_way =
    then_step
      (then_step
        (then_step
          (then_step
            (then_step (then_step here (lock 1 second_call (look ∷ []) [] _ refl refl refl))
              (begin 1 second_call (look ∷ []) [] _ refl refl))
            (end 1 second_call new_shared (look ∷ []) [] _ refl refl))
          (unlock 1 (look ∷ []) ended_second _ refl refl))
        (lock 0 first_call [] [] _ refl refl refl))
      (begin 0 first_call [] [] _ refl refl)

one_by_one_example :
    OneByOne shared new_shared half_state.log half_state.table
    × ((half_state.threads 1).ended ≡ own shared 1 half_state.log)
    × (both_insert 1
        ≡ in_order shared
            (half_state.threads 1).ended
            (current shared (half_state.threads 1).phase ++ (half_state.threads 1).todo))
one_by_one_example = one_by_one shared new_shared both_insert half_state 1 half_way

two_programs : (i : ℕ) → 2 ≤ i → both_insert i ≡ []
two_programs zero h = absurd (omega arith)
two_programs (suc zero) h = absurd (omega arith)
two_programs (suc (suc i)) h = refl

can_end_example : (u : System shared) × Reach shared half_state u × Finished shared 2 u
can_end_example = can_end shared new_shared both_insert half_state 2 two_programs half_way
