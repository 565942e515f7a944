-- ===== src/Lib.antt =====
-- ktsense: a command-line tool, an MCP server and a warm daemon around a Kotlin language engine. The
-- engine client (crates/ktsense-lsp) speaks Content-Length frames with a child process; the daemon
-- (crates/ktsense-daemon) keeps one such session warm and serves it on a Unix socket; the pure core
-- (crates/ktsense-core) filters, matches, orders and budgets what is answered; the MCP server (crates/ktsense-mcp) runs the
-- tool for an agent and indexes its answers. This library models those four crates' logic.
--
-- The shared modules: Prelude passes on the library's names and holds tests, lists and text over the
-- native numbers; Std models what the sources use of Rust's standard library (Result, UTF-8, splitting
-- and trimming, decimal numbers, searching for bytes).
--
-- The engine client:
--   Lsp/Framing      crates/ktsense-lsp/src/framing.rs: `encode`, `FrameDecoder::push`, `next_frame`
--   Lsp/Reader       crates/ktsense-lsp/src/client.rs: `Reader::run`, its two loops
--   Lsp/Session      crates/ktsense-lsp/src/client.rs: `request_within`, `Reader::dispatch`,
--                    `response_outcome`, `fail_pending`, as events on the session they share
--   Lsp/Version      crates/ktsense-lsp/src/version.rs: `parse`, `compare`, `classify`, `assess`
--   Lsp/Progress     crates/ktsense-lsp/src/progress.rs, and `IndexTracker` of
--                    crates/ktsense-daemon/src/engine.rs
-- The daemon:
--   Daemon/Wire      crates/ktsense-daemon/src/wire.rs: `read_frame`, `write_frame`
--   Daemon/Protocol, Daemon/Engine   the frames, the version, the interface, and engine.rs's outcomes
--   Daemon/Server    crates/ktsense-daemon/src/server.rs: `serve_loop`, `serve_connection`
--   Daemon/Client    crates/ktsense-daemon/src/client.rs: `Client`, `AnyClient`
--   Daemon/Lifecycle crates/ktsense-daemon/src/server.rs: `run`, `prepare_directory`,
--                    `prepare_socket_path`, `probe`, `stop`, `stop_if_mismatched`
--   Daemon/Socket, Daemon/Placement   crates/ktsense-daemon/src/lib.rs and placement.rs: where the
--                    socket of a workspace root goes
-- The core:
--   Core/Budget, Core/Pick, Core/Filter, Core/JavaText, Core/TextSearch, Core/SymbolSearch and
--   Core/Annotated   the files of crates/ktsense-core/src of the same names (budget.rs, pick.rs,
--                    filter.rs with `is_test_source` of references.rs, java_text.rs, text_search.rs,
--                    symbol_search.rs, annotated.rs)
--   Core/References  crates/ktsense-core/src/references.rs with the tree of skeleton.rs: `enclosing_chain`,
--                    `span_at`, `group_references`; Core/ByPath the maps by path of the crate
--   Core/TextRefs, Core/Implementors   text_refs.rs and implementors.rs
--   Core/Trace       the sites and the callers of crates/ktsense-core/src/trace.rs: `callers_of`
--   Core/Imports, Core/Graph, Core/Components   imports.rs, `Graph` of rank.rs, and scc.rs
--   Core/Text, Core/Layout   crates/ktsense-core/src/text.rs: `fence_for`, `neutralize`, and
--                    `normalize_signature_layout`
-- The MCP server:
--   Mcp/Citations    crates/ktsense-mcp/src/citations.rs: `Scan`
--   Mcp/Warm, Mcp/Roots   crates/ktsense-mcp/src/warm.rs and roots.rs; Mcp/Paths how std compares paths
--   Mcp/Server       crates/ktsense-mcp/src/lib.rs and server.rs: the tools and `present`; its children
--                    Arguments (the requests of the tools) and Calls (the state over calls)
-- A module's child modules are named for what they prove; Tests modules run the theorems on concrete
-- values.
--
-- How the source is carried over. A string is its bytes, or its code points where the source decodes
-- them; `usize` has 64 bits. A stream is the bytes that can still be read and the fault behind them; a
-- writer is what was sent and how much more can be. JSON is serde_json's, a parameter with its two
-- directions, and the theorems that need it say which frames it must read back. What the file system,
-- `connect`, the listener and the engine answer is a parameter too. The calls that wait are events, in
-- the order in which they happen. An ordered map is its list in order, a hash map the list of its keys;
-- a stable sort is insertion. The byte ratio of 3.6 is taken as the exact 18/5. Paths are taken as
-- UTF-8.
--
-- Fuel: the reader's inner loop and the request loop of a connection run on fuel one above the bytes
-- that are there; each frame takes at least one. The closure of implementors runs on fuel one above
-- the nodes of the workspace; each turn takes one entry off the queue, and only a new location adds
-- one. A walk of the components runs on two turns for each node and one for each edge. The binary
-- search halves a window that has as many indices as its fuel.
--
-- Not modelled: spawning the engine and its timeouts, `initialize` and `shutdown`; the rest of the
-- core (rendering, the page rank, putting the report of a trace together, the Java declaration
-- scan); the syntax crate, which walks the trees of tree-sitter; the command line, which calls the
-- crates above and third-party libraries; and of the MCP server the running of the binary and what
-- the rmcp library does.
pub mod Prelude
pub mod Std
pub mod Lsp
pub mod Mcp
pub mod Daemon
pub mod Core
