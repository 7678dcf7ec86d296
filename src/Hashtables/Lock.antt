-- ===== src/Hashtables/Lock.antt =====
-- lib/lock_stl_hashtable.h: the table whose methods hold a mutex. Threads call its methods at the
-- same time; a method is four steps of its thread, between which the other threads may move: it
-- takes the mutex, the method of StlHashtable starts on the table as it stands, ends, and the mutex
-- is given back. Without the mutex, two methods could work on the same table, and one of their
-- effects would be lost.
pub mod Sequential
pub mod Deadlock
pub mod Ending
use ycsb.Prelude.{ℕ, ◌≡◌, Option, none, some, List, [], ◌∷◌}
use ycsb.Prelude.Tests.{◌==◌, if◌then◌else◌}
use ycsb.Hashtables.{StringHashtable}
use ycsb.Hashtables.Calls.{Call, Answer, call}

module _ {V : Type 0} (T : StringHashtable V) where
  -- Where a thread stands: outside the methods, behind lock_guard, in the method of the base class
  -- that has started on a table, or behind its end, before the guard gives the mutex back.
  pub data Phase : Type 0 where
    outside : Phase
    inside : Call V → Phase
    working : Call V → T.State → Phase
    leaving : Phase

  -- The calls that the thread has yet to start, and those that have ended with what they returned,
  -- the last one first.
  pub record Thread : Type 0 where
    pub phase : Phase
    pub todo : List (Call V)
    pub ended : List (Call V × Answer V)

  -- `holder` is who has the mutex. `log` is the order in which methods have ended, the last one
  -- first.
  pub record System : Type 0 where
    pub table : T.State
    pub holder : Option ℕ
    pub threads : ℕ → Thread
    pub log : List (ℕ × Call V × Answer V)

  -- One thread stands elsewhere now.
  unfoldable pub set : ℕ → Thread → (ℕ → Thread) → ℕ → Thread
  set i th f j = if j == i then th else f j

  pub data Step (s : System) : System → Type 0 where
    -- std::lock_guard<std::mutex> lock(mutex_)
    lock :
        (i : ℕ) (c : Call V) (cs : List (Call V)) (done : List (Call V × Answer V)) (u : System)
        → s.holder ≡ none
        → s.threads i ≡ record { phase = outside; todo = c ∷ cs; ended = done }
        → u ≡ record s {
          holder = some i;
          threads = set i (record { phase = inside c; todo = cs; ended = done }) s.threads;
        }
        → Step s u
    -- the method of StlHashtable starts
    begin :
        (i : ℕ) (c : Call V) (cs : List (Call V)) (done : List (Call V × Answer V)) (u : System)
        → s.threads i ≡ record { phase = inside c; todo = cs; ended = done }
        → u ≡ record s {
          threads = set i (record { phase = working c s.table; todo = cs; ended = done }) s.threads;
        }
        → Step s u
    -- and ends
    end :
        (i : ℕ) (c : Call V) (t : T.State) (cs : List (Call V)) (done : List (Call V × Answer V))
        (u : System)
        → s.threads i ≡ record { phase = working c t; todo = cs; ended = done }
        → u ≡ record s {
          table = (call T c t).1;
          threads =
              set i
                (record { phase = leaving; todo = cs; ended = (c, (call T c t).0) ∷ done })
                s.threads;
          log = (i, c, (call T c t).0) ∷ s.log;
        }
        → Step s u
    -- the destructor of the guard
    unlock :
        (i : ℕ) (cs : List (Call V)) (done : List (Call V × Answer V)) (u : System)
        → s.threads i ≡ record { phase = leaving; todo = cs; ended = done }
        → u ≡ record s {
          holder = none;
          threads = set i (record { phase = outside; todo = cs; ended = done }) s.threads;
        }
        → Step s u

  pub data Reach (s : System) : System → Type 0 where
    here : Reach s s
    then_step : {t u : System} → Reach s t → Step t u → Reach s u

  -- Threads that have yet to call what they are given.
  unfoldable pub starting : T.State → (ℕ → List (Call V)) → System
  starting t programs = record {
    table = t;
    holder = none;
    threads = λ i. record { phase = outside; todo = programs i; ended = [] };
    log = [];
  }
