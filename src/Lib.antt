-- ===== src/Lib.antt =====
-- The object store keeps, over a storage engine, the schema of a file and the changes that its
-- observers are told of. This library models the parts of it whose logic is its own.
--
-- The parts, and where they stand:
--
-- * IndexSet, for src/index_set.cpp and src/index_set.hpp. A set of row indexes is a sorted list of
--   ranges that do not meet. IndexSet/Ranges has the ranges and the validity that
--   the first loop of `ChunkedRangeVector::verify` asserts; IndexSet/Iterator the iterator and `find`; IndexSet/Single
--   `add`, `contains`, `erase_at`, `insert_at` and `shift_for_insert_at`; IndexSet/Counting
--   `shift`, `unshift`, `add_shifted` and `erase_or_unshift`; IndexSet/Removing `remove`;
--   IndexSet/Combining the operations that take a second set, each with a module for what it leaves;
--   IndexSet/Chunks the chunks of `ChunkedRangeVector`, by themselves, and `count` on them.
-- * Changes, for src/impl/collection_change_builder.cpp and src/collection_notifications.hpp. A
--   change to a collection is three index sets, one more for each tracked column, and a list of
--   moves. Changes/Builder has the operations that record one edit, by the operations of IndexSet;
--   Changes/Moves what they do to the moves;
--   Changes/Invariant what `verify` asserts. Changes/Rows describes a change by the old row of every
--   new row, apart from how it is recorded, and Changes/Rows/Edits runs edits both ways.
--   Changes/Merge has `merge`, by the operations of IndexSet/Combining; Changes/Merge/Origin and
--   Changes/Merge/Still compare it with the two changes one after the other. Changes/Diff has
--   `calculate`, with `LongestCommonSubsequenceCalculator` in Changes/Diff/Matching and the body of
--   `verify_changeset` in Changes/Diff/Applying; the other modules of Changes/Diff are on the blocks
--   that match, on what is recorded between them, and on the rows that this gives. Changes/Finalize has
--   the constructor and `finalize`.
-- * Schema, for src/property.hpp, src/object_schema.cpp, src/schema.cpp, src/object_store.cpp
--   and src/shared_realm.cpp. Schema/Names and Schema/Properties have the data; Schema/Lookup,
--   Schema/Change, Schema/Zip and
--   Schema/Compare the look-up by name and the changes from one schema to another; Schema/Verify
--   which changes each mode accepts; Schema/Apply what is asked of the engine for them.
--   Schema/Validate has `ObjectSchema::validate`, by `Schema::find`. Schema/Modes has, for
--   src/shared_realm.cpp, what each `SchemaMode` decides, and `apply_schema_changes` by Schema/Apply:
--   the transaction and the migration are steps that it asks for, and what the schema of the file
--   differs in after the migration is an argument. Schema/Loops has `Schema::validate`, with the search
--   for cycles of embedded objects.
-- * Session, for src/sync/sync_session.cpp and what it uses of src/sync/sync_session.hpp,
--   src/sync/sync_config.hpp and src/sync/sync_manager.hpp. Session/Data has the members of a session;
--   Session/State what entering the states active, dying and inactive does; Session/Calls each call in
--   each state and the callbacks of the client; Session/Errors `handle_error` and `handle_refresh`;
--   Session/Runs sequences of all of these; Session/Progress the progress notifier, by itself.
-- * Tests has runs of the definitions and uses of the theorems at concrete inputs.
--
-- Correspondence. Functions have the names of the source; helpers stand for the parts of a function
-- that their comments name. Sizes (`size_t`) are unbounded natural numbers and `npos` is `none`:
-- indexes are rows in memory, and the source does not let them wrap, but for one difference in
-- `find_longest_match`, which is taken modulo 2 ^ 64. An iterator is the ranges
-- before it, in reverse, and those from it on; a mutation through it gives a new iterator. The
-- operations of a set are modelled on all its ranges, without the chunks that hold them and the loops
-- that skip whole chunks, as they are where the chunks have the right counts; `unshift`, `merge` and
-- `find_longest_match` use `count` in that way, the last from any start. IndexSet/Chunks takes the size of a chunk (256, or 4 in a debug build) as an
-- argument. A `REALM_ASSERT` on arguments is a hypothesis of the theorems. Text is a list of bytes.
-- Where the source throws a list of messages the model returns the list. `std::sort` is
-- insertion sort. What a merge leaves of its second change, nothing, is left out, and so is
-- `modifications_new`, which a builder leaves empty until `finalize`. The keys of objects are only
-- compared, and are natural numbers. A session does its calls of
-- the client, the user and the manager by a list of outputs, newest first; each of its calls is one
-- step, and what other threads do comes before or after it, but for the loop of
-- `update_configuration`. A session has a user, and the server
-- address can be read. An assertion that stops the program in `handle_error` is a missing result, that
-- of `advance_state` that the state is another one too; all other calls of it are made in a state that
-- was looked at just before, and is another one.
--
-- Fuel. `do_remove` loops while there is something to remove; the model gives it two rounds more than
-- there are ranges, since a round uses up a range or ends the loop, and the theorem on `remove` shows
-- that this is enough. The loop of `update_configuration` may go on for as long as callbacks or other
-- threads, which are an argument of it, bring the session back to life; the theorem on it shows that it
-- ends where they leave the session alone in one of its rounds. In Session/Runs they do nothing, and it
-- has two rounds.
-- `find_longest_matches` has as many rounds as there are rows of the first list: each call leaves out a
-- row at least, and the theorem on it shows that more would change nothing. `do_check`
-- takes its queue depth by depth, with twice as many rounds as there are types and two more: in every
-- second round at least a further name has been visited, and the theorem on it shows that they are
-- enough. Where its assertion that a type is found fails, the result says so.
--
-- Not modelled: the storage engine and what needs it (tables, queries, transactions, accessors),
-- notifiers of changes and threads, users, network and platform code.
pub mod Base
pub mod IndexSet
pub mod Changes
pub mod Schema
pub mod Session
mod Tests
