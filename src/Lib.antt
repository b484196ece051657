-- ===== src/Lib.antt =====
-- A model of the Rust core of sitewalk, an app in which a field worker walks a site and talks: speech
-- is cut into windows and transcribed, the transcript is kept in a store as a session, an agent turns
-- it into items and documents, and a memory of the user's facts shapes its prompts.
--
-- The parts, and how they work together:
-- - Stt is crates/stt. Stt/Chunker.antt (chunk.rs) cuts buffered samples into overlapping windows;
--   Stt/Finalizer.antt (finalize.rs, with the segments of decoder.rs) merges the words of decoded
--   windows into a transcript that only grows; Stt/Stream.antt (lib.rs, bias.rs, vad.rs) drives both:
--   `poll` and `end` take buffered audio, drain the windows, gate and decode each, and emit words.
--   Stream/Course.antt says directly what hearing the windows one after another is.
-- - Harness is crates/harness. Harness/Memory.antt with Memory/Evict.antt and Memory/Vocabulary.antt
--   (memory/mod.rs) is the memory: facts in named sections, the word cap, pruning, the vocabulary that
--   Stt's prompt is built from. Harness/Policy.antt (reflection/policy.rs) says when to reflect,
--   Harness/Reflection.antt (reflection/engine.rs) how a model rewrites the memory,
--   and Harness/MemoryTool.antt (memory/tool.rs) the tool by which the agent changes it.
--   Harness/Llm.antt (llm.rs, error.rs, tool.rs) has messages, usage and tools, and Harness/Agent.antt
--   (agent.rs) the loop that calls a model and runs its tools; Agent/Turns.antt says directly what its
--   turns are.
-- - Store is crates/murmur-core. Store/Domain.antt (domain.rs, error.rs) has the entities, Store/Op.antt
--   (store/mod.rs, ids.rs) the database and its operations, and Store/Jobs, Usage, Sessions, Items,
--   Photos, Artifacts and Finish the operations of the files of store/ and of reflection.rs. Finish has
--   the exits of processing, the clearing of outputs and the deletion of a session, which reach into
--   every table. Store/Command.antt has a command for every public operation of the modelled parts
--   that writes, and runs sequences of them.
-- - Store/Schemas.antt with Schemas/Validate.antt (store/schemas.rs), Store/Documents.antt
--   (store/documents.rs) and Store/Contacts.antt (store/contacts.rs) are the types of documents, their
--   numbers and the contacts; Store/Domain/Documents.antt has their rows.
-- - Pipeline is crates/murmur-core/src/pipeline. Pipeline/SpokenPrice.antt with SpokenPrice/Amount.antt
--   and SpokenPrice/Label.antt (spoken_price.rs) reads the prices in the items of a walk and moves them
--   to the lines they belong to; Pipeline/Document.antt and Document/Build.antt (document.rs) build a
--   document: a build reads the walk and the schema from the store, draws the lines
--   (Document/Lines.antt), has a model price them (Document/Prices.antt) and write their prose
--   (Document/Compose.antt, Document/Prompts.antt), and stores the result with a number.
--   Document/Prices/Reply.antt says directly which price a reply names for an item.
--   Pipeline/Notes.antt (notes.rs) reads the notes of a walk.
-- - Coordinator.antt (crates/murmur-core/src/coordinator.rs) joins the policy, the store's signals and
--   activity (Store/Activity.antt, reflection.rs), the engine and the files of the memory.
-- - Base has the shared names and lemmas: text as a list of code points, maps as sorted association
--   lists, lists over native numbers, results. Examples has the inputs at which the theorems apply.
--
-- State and operations: a method that changes an object takes it to a result and the new object, under
-- the method's name (`end_stream` is SttStream::end, `store_reflection` is Store::record_reflection,
-- `new` is Chunker::new). An operation on the store is a function from a state to a result and a
-- state; each SQL statement takes effect at once, as SQLite commits it, and `transaction` puts the
-- database back if its body fails. The state counts how often the clock was read and an id was made.
-- A table maps ids to rows with tombstones; an insert of an id that is there fails, as with the
-- primary key, so ids need no assumption. Statuses are typed; their column texts are in Domain.
--
-- Parameters: floats (Base/Float.antt), the tables of Unicode (Base/CharTables.antt), the JSON type with
-- the readings of its values, the JSON encoding of a document and the debug form of a template, the
-- speech decoder, the model provider, the tools and the world they act on, the files of the memory, the
-- clock and the source of ids. Nothing is assumed of them but what a theorem states.
--
-- Bounds and fuel: 64-bit sums wrap as a release build has them. At a sample rate of zero, on which the
-- source panics, a sample's time is zero. The loop over ready windows runs on
-- fuel: `rounds` is two more than the buffered samples, and each window moves the cursor forward. The
-- scan for amounts in a text runs on the length of the text as fuel, and each round moves ahead in it
-- (SpokenPrice/Amount/Fuel.antt). Amounts are read up to 2 ^ 63 - 1, and a total wraps at 64 bits. The
-- eviction loop runs once per fact and the agent loop once per turn, as in the source.
--
-- Not modelled: the whisper bindings, HTTP, serde encodings, SQL text and migrations, a connection that
-- fails, listings that only read, the built-in schemas, the rest of the pipeline (the processor and the
-- live pass), poisoned locks, the FFI bridge, the evaluations and the Swift shell.
pub mod Base
pub mod Stt
pub mod Harness
pub mod Store
pub mod Coordinator
pub mod Pipeline
pub mod Examples
