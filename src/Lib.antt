-- ===== src/Lib.antt =====
-- YCSB-C, a driver for the Yahoo! Cloud Serving Benchmark: it fills a database with records and then
-- runs a mix of transactions against it, from several threads.
--
-- The parts, from the bottom up, and the files that model them:
-- - Utils: core/utils.h. FNVHash64 is `fnv_hash_64`, RandomDouble `random_double`, RandomPrintChar
--   `random_print_char`, StrToBool `str_to_bool`, Trim `trim`.
-- - Actions: programs of atomic actions on a state that threads share, what makes one safe among
--   others, and why a pool of safe programs ends.
-- - Properties: core/properties.h. GetProperty is `get_property`, operator[] `at`, SetProperty
--   `set_property`, Load `load`, on the content of the stream.
-- - Generators: core/*_generator.h, one module for each, with the state as a record and Next, Last and
--   the constructors as `next`, `last` and `new`. `Generators.Any` is the base class's virtual Next.
-- - Db: core/db.h, the interface of a database, as a record of operations on its state.
-- - Lsm: db/splitlsm_db.cc and db/unifiedlsm_db.cc. `Lsm.Split` and `Lsm.Unified` are the operations
--   over an engine, `Lsm.Config` what the constructors make of the properties. `Lsm.Contract` says
--   what they promise as databases, `Lsm.Scans` what a scan gives.
-- - DbFactory: db/db_factory.cc, CreateDB.
-- - Workload: core/core_workload.{h,cc}. The record CoreWorkload has the members, `Workload.Property`
--   the constants, `Workload.Setup` Init; the calls have their names in lower case.
-- - Client: core/client.h. DoInsert is `do_insert`, DoTransaction `do_transaction`, with one function
--   for each transaction. A World is what a client works on: workload, random state and database.
--   `Client.Actions` has the same calls as programs, with `_program` behind their names: an action is
--   one of `Client.Calls`, a call of the database, or a look at a member of the workload.
-- - Cli: ParseCommandLine of ycsbc.cc, as a function on the list of arguments.
-- - Main: ycsbc.cc. DelegateClient is `delegate_client`; `run_phase` runs the threads of a phase one
--   after the other; `Main.Program` is main; `Main.InTurn` has the operations of a phase in a row;
--   `Main.Interleaved` has the threads of the load phase as a step relation, and `Main.Actions` as
--   programs of which any thread may do its next action.
--   `Client.Ready`, `Client.Service`, `Main.Running` and `Main.Success` are about
--   runs in which all succeeds, `Main.Refusal` about those that end before a database is opened.
--   `Main.Output` has what main and the parser print.
-- - Timer: core/timer.h, over the clock of the machine. Start is `start`, End `stop`.
-- - HashString: lib/string.h. SDBMHash is `sdbm_hash`, Wrap `wrap`, operator== `equals`.
-- - Hashtables: lib/string_hashtable.h, the interface as a record and the contract of a finite map.
--   `Hashtables.Stl` is lib/stl_hashtable.h: Get is `get_value_of`, Insert `insert_pair`, Update
--   `update_value`, Remove `remove_key`, Entries `entries`, Size `size`. `Hashtables.TbbRand` and
--   `Hashtables.TbbScan` are lib/tbb_rand_hashtable.h and lib/tbb_scan_hashtable.h, with `rand_` and
--   `scan_` before the names. `Hashtables.Container` is what they stand on, a parameter, with the laws
--   of a container with unique keys. `Hashtables.ListMap` is std::unordered_map as a list of entries,
--   which keeps these laws; the order of its entries is one of many.
--   `Hashtables.Memory` is StlHashtable on memory: a key is an address, Copy is `copy`, Free `free`, and
--   to read or free a block that is not allocated is undefined.
-- - Hashtables.Lock: lib/lock_stl_hashtable.h, as threads that share a table and its mutex.
-- - Prelude has what the parts share, Platform what they take from the C++ platform, and Tests
--   examples on concrete inputs.
--
-- How the code is read:
-- - A text is a list of bytes. int is ℤ, and the conversions are written out; uint64_t and size_t are
--   natural numbers with the wrap-around written out.
-- - double with its arithmetic, std::pow and std::stod, the random engines and rand are the fields of
--   Platform, without laws. The laws that a theorem needs are hypotheses: UniformInRange is the
--   documented range of uniform_int_distribution. A double that uint64_t cannot hold has no defined
--   conversion in C++: `truncate_u64` is then whatever number the machine gives.
-- - Memory does not run out. std::string::append throws a length_error where the text would be longer
--   than max_size(), a field of Platform. A length that a string can hold is one up to max_size(); the
--   length -1 of a property is 2 ^ 64 - 1 in the code.
-- - A call that can throw, fail an assertion or be undefined returns an Outcome. `ndebug` says whether
--   the build defines NDEBUG, which removes the assertions.
-- - The engines of the lsm-tree project are not in the repository. An Engine is their four operations,
--   which may throw, and IsLawful says what a working store does.
-- - The containers under the tables of lib are parameters too, and IsMap is their documentation. A step
--   of `Hashtables.Lock` is what a method does between two points at which other threads may move.
-- - In `Hashtables.Memory` the container holds with each value the address of the key's string, and a
--   lookup counts as a read of all of these strings. Malloc never fails.
-- - Get, Update and Remove pass their key to Wrap, which asserts that it is not NULL; Insert and Entries
--   test for NULL themselves. A NULL key of the former is modelled in `Hashtables.Memory`; elsewhere
--   their keys are strings. Outside of `Hashtables.Memory` a table only counts its strings, by
--   `copies`, and does not say which of them is freed.
-- - The random state is one for the whole process, as in the code, and is passed along. Where C++
--   leaves the order of two arguments open (Next and RandomPrintChar in BuildValues and BuildUpdate)
--   Next comes first; the two read different random states.
-- - `run_phase` and main run the threads of a phase one after the other. The code locks each generator
--   call by itself, and what the database locks. `Main.Interleaved` divides an insertion into three
--   steps: the key, the values and the call of the database. In `Main.Actions` each call of a
--   generator, each draw of a character, each look at a member and each call of the database is an
--   action, and other threads move between any two.
--   DiscreteGenerator locks its draw only, and so is two actions: the draw and the choice. A
--   SkewedLatestGenerator reads its counter and draws in one action.
--
-- Fuel: the loop of NextTransactionKey draws until a key is not above the last of the sequence. Its
-- rounds are bounded by `fuel`, and `no_fuel` is the result when they are used up; one round is enough
-- for uniform requests. All other loops are structural.
--
-- Not modelled: the reader and writer locks of the two TBB tables, whose methods are as one thread
-- sees them; the workload files and scripts.
pub mod Prelude
pub mod Platform
pub mod Actions
pub mod Timer
pub mod Utils
pub mod HashString
pub mod Hashtables
pub mod Properties
pub mod Generators
pub mod Db
pub mod Lsm
pub mod DbFactory
pub mod Workload
pub mod Client
pub mod Cli
pub mod Main
pub mod Tests
