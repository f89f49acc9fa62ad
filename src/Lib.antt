-- ===== src/Lib.antt =====
-- guestjs, a library that runs JavaScript guests inside a Rust host: the bundles that an
-- application hands to a guest, the catalogs of host and native modules, the resolution of what a
-- guest imports, the entry into a guest under an execution policy, and the loop that drives the
-- promises and the streams between a guest and its host.
--
-- The parts and how they interact (paths from the repository's root, under
-- crates/guestjs-core/src):
--   * A bundle is a set of named modules and data files. `BundleBuilder` collects them and keeps
--     the first error; `build` gives the bundle its id (bundle/name.rs, bundle/mod.rs).
--   * A catalog binds host modules, native modules with aliases, and bundles; every insertion
--     claims its names, and a catalog may deny names (catalog.rs, host/native.rs,
--     host/library.rs).
--   * A guest imports through three layers: what was mounted at run time, the catalog of the
--     guest and the catalog of its runtime. A specifier is resolved to a name, the name is
--     located as a module, an alias or an index module, and the source found for it is loaded
--     (imports/resolver.rs, imports/bindings.rs).
--   * An entry into a guest arms its policy when it is the outermost one, and an interrupted
--     run is reported as a timeout or a cancellation (policy.rs, guest/activity.rs,
--     guest/mod.rs).
--   * A runtime numbers its guests and finds the live guest of a context; the engine interrupts
--     what runs while a guest is due (runtime.rs, guest/registry.rs).
--   * Futures of the host are polled beside the guest, and publishing a settled one settles its
--     promise (driver/host_futures.rs). The event loop does both and runs the jobs of the engine;
--     awaiting a promise of the guest runs the loop (driver/event_loop.rs, driver/promise.rs).
--   * Handles of iterators and streams of the guest keep the promise that they await and the phase
--     that they are in (handle/iter.rs, handle/stream.rs).
--   * A module of the host declares its members and what it requires of its state; a stream of the
--     host is shared by the calls that a guest makes (host/module.rs, host/stream.rs).
--   * The QuickJS engine keeps which storages of the guest the host has borrowed, and how deep it
--     is entered (crates/guestjs-quickjs/src/engine.rs, context.rs).
--   * Builders collect the catalogs and policies of a runtime and of a guest (builder.rs).
--   * Arguments of a call are read in order, and a value may be absent in two ways
--     (marshal/args.rs, marshal/nullish.rs); integers and lists become values of the guest and
--     come back (marshal/primitives.rs, marshal/collections.rs).
--
-- Files:
--   * Prelude: the libraries' names passed on, Boolean tests and list lemmas (Prelude/Tests,
--     Prelude/Lists).
--   * Errors: errors.rs. `Error`'s constructors are the enum's variants, `Result` with `>>=`
--     stands for `Result<T, Error>` with `?`.
--   * Text: strings as lists of code points, and the methods of `str` that the code calls
--     (`split`, `rsplit_once`, `strip_prefix`, `strip_suffix`, `starts_with`); lemmas in
--     Text/Split, Text/Affix, Text/Order.
--   * Dict: `BTreeMap` and `BTreeSet` as association lists in the order of their keys; lemmas
--     in Dict/Laws, Dict/Sorted.
--   * Bundle: `BundleState` and `Bundle`; Bundle/Name `ModuleName`; Bundle/Path `BundlePath`;
--     Bundle/Utf8 `String::from_utf8`; Bundle/Builder `BundleBuilder`, one function a method, the
--     builder returned beside the result; Bundle/Roots and the files under Bundle/Builder hold
--     proofs.
--   * Catalog: `Catalog` and the two libraries; Catalog/Denied `DeniedNames`; Catalog/Native
--     `NativeModule`; Catalog/Sources `Sources` with `claim`, the insertions, `canonical` and
--     `find`; Catalog/Laws and the files under Catalog/Sources hold proofs.
--   * Imports: Imports/Resolver `Resolver` (`Resolver::join` is `join_path`, its `try_fold` is
--     `walk`); Imports/Bindings `GuestBindings` with `locate` and `mount`; Imports/Dispatch
--     `Imports` and `GuestModules`; proofs below them.
--   * Policy: `ExecutionPolicy` and `ArmedPolicy`, over a `World` of a clock and of signals;
--     Policy/Laws and Policy/Runs hold proofs.
--   * Guest: `GuestActivity` and `GuestState` with `activate`, `enter` and `reenter`; a closure is
--     a function from the machine to a result and the machine, so it may enter again; proofs in
--     Guest/Balance, Guest/Entry and Guest/Entered.
--   * Runtime: `RuntimeState` and `GuestRegistry`, with the guests that an application creates,
--     clones and drops; Runtime/Reachable has the step relation, Runtime/Registry and Runtime/Guests the
--     other proofs.
--   * Futures: `Poll`, and what it is for a future to settle.
--   * Driver: Driver/HostFutures `PendingHostFutures`, an extension of the guest, polled and
--     published; Driver/EventLoop `EventLoop`, its `step` and one poll of `run_until_idle`;
--     Driver/Promise `PromiseFuture`; proofs below each.
--   * Handle: Handle/Reader `Reader`, Handle/Writer `WriterState` and `Writer`, Handle/Iter `Iter`
--     and `AsyncIter`, where an async function is one poll of its future; Handle/Buffers
--     `write_bytes` of handle/protocol.rs; proofs below each.
--   * Host: Host/Shared `SharedStream`, its calls as a list in their order; Host/Modules
--     `ModuleDeclaration` and `Requirements`, a chain of calls as a list; proofs below each.
--   * Quickjs: Quickjs/Loans `Loans`; Quickjs/Entries `Engine` with the lock of its runtime;
--     proofs below each.
--   * Marshal: Marshal/Args `Args`, the arguments of a call; Marshal/Nullish `Nullish`;
--     Marshal/Describe `Expected`; Marshal/Integers the integers of marshal/primitives.rs;
--     Marshal/Collections the arrays of marshal/collections.rs; proofs below each.
--   * Builder: `RuntimeBuilder` and `GuestBuilder`, a chain of calls as a list; proofs in
--     Builder/Layers, Builder/Offers and Builder/Denial.
--   * Tests: the theorems at concrete inputs.
--
-- Bounds and loops: every loop of the code is recursion on a list, so no fuel is used; polls that
-- follow one another are inductive relations of finitely many steps. The counter of bundle
-- ids is an atomic 64-bit number whose wrap-around is written out; `next_id` gives none where the
-- source panics. The depth of an activity is unbounded here, a `usize` in the source. An instant
-- is a number, and whether a deadline can be represented is `checked_add`, a parameter. A `usize`
-- has 64 bits, and the integers of a guest are safe up to 2^53 - 1.
--
-- Not modelled: the transpiler is a call of a compiler and a parameter of the builder; the error
-- of a failed UTF-8 decoding is kept as the bytes. Directories and embedded directories as bundle
-- input belong to the file system and to include_dir. Initializers, declarations of modules
-- and thrown values are numbers, since the engine runs them. The trait of the engine, the QuickJS
-- engine behind it save its loans and its entries, the macros and the facade crate are left out, as are the
-- handles without a state of their own, the marshalling of other values (texts, floats, maps,
-- sets, tuples, buffers and serde) and what else a host declares (functions, classes, exceptions,
-- shared sinks). A future is a parameter, and so are the jobs of the engine and what it does with
-- a promise; what a theorem relies on of the engine is a named hypothesis (`ReadsBack` of
-- `as_i64` and the numbers, `RoundsAs` of `as f64`, `Keeps` of arrays, texts and properties). A
-- future of a shared stream that is dropped before it is ready is left out.
pub mod Prelude
pub mod Errors
pub mod Futures
pub mod Text
pub mod Dict
pub mod Bundle
pub mod Catalog
pub mod Imports
pub mod Policy
pub mod Guest
pub mod Runtime
pub mod Driver
pub mod Handle
pub mod Host
pub mod Marshal
pub mod Builder
pub mod Quickjs
pub mod Tests
