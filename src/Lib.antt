-- ===== src/Lib.antt =====
-- npmfilter, a filtering proxy between npm and its registry: which versions of a package a client
-- gets to see, and what the daemon remembers of them.
--
-- The parts and how they interact. A request is classified by its path; a write is refused or
-- relayed with an audit row (src/proxy/mod.rs), and one for a packument is answered from the
-- document that upstream serves, by way of the packument cache (src/proxy/cache.rs). The policy
-- engine (src/policy/mod.rs) judges each version of the document: it asks the integrity ledger and
-- the rules store (src/policy/memory.rs), applies the gates, and rebuilds the document without what
-- is withheld. The result is served whole or abbreviated (src/proxy/shape.rs). Behind the two
-- traits stands the state database (src/store/mod.rs): a request (`evaluate` of src/proxy/mod.rs)
-- observes all versions of a document in one transaction, runs the engine over the database, and
-- appends audit rows for what was withheld. Rules are written by requests on a control socket,
-- which are validated first (src/control/protocol.rs); what was withheld is read back out of the
-- audit trail (src/mcp/blocks.rs).
--
-- The files. Prelude has what the modules share: lists over native numbers, texts, the two kinds of
-- maps (Dict for HashMap, Tree for BTreeMap and serde_json's Map), results and machine words. Json
-- is `serde_json::Value`, Hex is `hex_encode` of src/store/mod.rs, and External the record of what
-- is taken from crates: instants, semver, SHA-256 and the JSON renderer, all of them arguments.
-- Policy: Types (the data and the two traits), Meta (what is read out of a version object),
-- Describe, Messages and Public (texts), Gates (`evaluate_version`, a function for each gate),
-- Evaluate (`evaluate`), Tags (`repoint_dist_tags`), Memory (src/policy/memory.rs). Proxy: Size
-- (`estimate_size`), Cache (src/proxy/cache.rs), Shape (src/proxy/shape.rs, with
-- `encode_package_path` in Shape/Path) and Serve (`serve_version` of src/proxy/mod.rs), Route
-- (`classify`), Handle (`handle`), Requests (`evaluate` of src/proxy/mod.rs), Foreign (`url_host`,
-- `printable`, `summarize`, `note_foreign_tarballs`) and Errors (src/proxy/error.rs). Store, all of
-- it src/store/mod.rs: Errors, Types (severities, hook and pin sets, new rules, audit entries),
-- Tables (the rows and the SQL statements), Connection (its uses and transactions), Rows (what a
-- row is read as), Ledger, Rules and Audit (the methods), FailClosed (the traits without errors,
-- and the failure slot) and Migrate (`migrate`). Control: Protocol (the requests), Validate (the
-- field validators) and Request (`validate`). Mcp: Blocks (`split_reason`). The modules below these
-- prove what they do, and Tests runs them.
--
-- How the code is written here. A method that changes state behind a shared reference takes the
-- state and returns the new one; a lock around a map is the map, as every method holds it
-- throughout. Instants of the cache are numbers, and the clock is an argument as in the source's
-- `_at` functions. Saturating sums are capped at the largest value of 64 bits. A loop that fills a
-- map is a recursion over the entries. The one loop on fuel is that of `estimate_size`: its fuel is
-- the number of nodes of the document, each round takes one node off the stack, and so it ends with
-- an empty stack.
--
-- The database. SQLite is not part of the repository. A table is the list of its rows; a statement
-- of the source is a function on the tables that does what its SQL says, UNIQUE and PRIMARY KEY by
-- the maps that the tables are, AUTOINCREMENT by the last id. A connection holds the tables, the
-- number of its uses and a function that says which uses fail: a prepare, a statement, the begin
-- and the commit of a transaction are one use each, and a transaction that fails leaves the tables
-- as they were. Which uses fail is arbitrary in the theorems. Two connections to one file, the
-- locks between them and a count beyond 2 ^ 63 are not modelled.
--
-- What is not modelled: HTTP, sockets, files, tasks and logging, which are input and output; the
-- decoding of bytes that are not UTF-8, which is a parameter; the opening of the database file and
-- its permissions; the configuration, the inspection of tarballs, the control service and the
-- seeding from a tree; the text of a summary in a packument; and of the modelled files the
-- constructors and getters that only build or read a record.
pub mod Prelude
pub mod Json
pub mod External
pub mod Hex
pub mod Policy
pub mod Proxy
pub mod Control
pub mod Mcp
pub mod Tests
pub mod Store
