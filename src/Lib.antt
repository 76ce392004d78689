-- ===== src/Lib.antt =====
-- grainstore: a store of versioned facts ("grains") with a write-ahead log, snapshot reads, a vector
-- index that is derived from the log's change stream, planned queries and governed access.
--
-- The parts and how they interact. A write goes to the committer (src/wal.rs), the one thread that
-- owns the log: it takes a batch of requests, answers those whose idempotency key it knows, gives the
-- others commit times of the clock (src/hlc.rs), appends one frame for each to the log, applies them
-- to the ordered store (src/kv.rs) under keys (src/keys.rs) in which the newest version of a pair
-- comes first, publishes them to the change stream (src/cdc.rs), and acknowledges them. Recovery
-- (src/recovery.rs) replays the log into an empty store. The truth store (src/truth.rs) reads by one
-- seek. The materializer (src/materializer.rs) feeds the vector index through an embedder
-- (src/embed.rs); queries (src/query.rs) join its candidates to the truth, with parameters that the
-- planner (src/planner.rs) takes from the catalog (src/catalog.rs). The engine (src/engine.rs) binds
-- these together, with staged answers (src/disclosure.rs), and the governed engine
-- (src/governance.rs) checks, redacts, debits and records each access. The blocks (src/block.rs) are a
-- storage format of their own, with descriptors by which queries skip whole blocks. The server's store
-- (server/src/lib.rs) lays out its values, embeds their texts, and loads and queries the engine. Three
-- programs stand around it: the daemon (server/src/bin/grainstored.rs) answers HTTP requests, the agent
-- server (server/src/bin/grainstore-mcp.rs) answers the lines of a JSON-RPC session, and the client
-- (server/src/bin/grainstore.rs) makes calls of the daemon from its arguments.
--
-- Files and code:
--   Model, Error          src/model.rs, src/error.rs
--   Keys, Keys/Order      src/keys.rs: grain_key, grain_prefix, seek_target, t_tx_from_key
--   Kv, Kv/BTree, Kv/Laws src/kv.rs: MemKv; a BTreeMap is the list of its entries by ascending key
--   Hlc, Hlc/Contention   src/hlc.rs: next as a step relation of threads that load and exchange
--   Cdc, Cdc/Delivery     src/cdc.rs: subscribe, publish; a channel is the list of what was sent
--   Wal, Wal/Crc          src/wal.rs: encode_value, decode_value, the payloads, the frames, crc32
--   Wal/RoundTrip, Wal/Fields, Wal/Frames   reading them back
--   Wal/Commit            src/wal.rs: committer_loop. commit_batch is one round of the loop, stage
--                         the body of its loop over the batch, write_buf the write and its two ends
--   Recovery, Recovery/Replay   src/recovery.rs: recover; replay_loop is its while loop
--   Durability and its children   the committer with recovery
--   Truth                 src/truth.rs: TruthStore; commit is one round with one request
--   Truth/Visible, Truth/Mvcc, Truth/Single, Truth/Session, Truth/Known, Truth/Reopen   its reads and commits
--   Embed, Embed/RoundTrip      src/embed.rs
--   Materializer, Materializer/Watermark   src/materializer.rs: apply, Completion
--   Materializer/Pool, Materializer/Pool/Order   its worker pool as a step relation
--   Materializer/Graph    the graph that the change stream makes
--   Vector                src/vector/mod.rs: the interface of an index
--   Vector/Brute, Vector/Sharded, Vector/Nearest   src/vector/brute.rs, src/vector/sharded.rs
--   Vector/Hnsw, Vector/Hnsw/Layer      src/vector/hnsw.rs: State and Hnsw; search_layer
--   Vector/Hnsw/Heap, Vector/Hnsw/Unvisited, Vector/Hnsw/Visits   search_layer and its state
--   Vector/Hnsw/Links     link, prune and the linking of a node
--   Vector/Hnsw/Live, Vector/Hnsw/Refine, Vector/Hnsw/Found   the graph as a map, and its answers
--   Vector/Hnsw/Degree, Vector/Hnsw/Bounded   the number of links of a node
--   Vector/Graph          src/vector/hnsw.rs: the graph as an index
--   Server, Server/Text   server/src/lib.rs: Store, encode_val, decode_val; embed_text
--   Server/Layout, Server/Answers, Server/Repeated, Server/Total   its values, and what its calls answer
--   Server/Json, Server/Words   serde_json as an interface with laws; texts as the standard library has them
--   Server/Body, Server/Body/Grains      server/src/bin/grainstored.rs: parse_grains
--   Server/Daemon         its handle and the loop of a worker
--   Server/Daemon/Effect, Server/Daemon/Stored   what a request does
--   Server/Daemon/Total   the responses of a worker
--   Server/Agent          server/src/bin/grainstore-mcp.rs: the tools, and the answer to a line
--   Server/Agent/Same, Server/Agent/Replies, Server/Agent/Session   beside the daemon, what is sent, and
--                         the loop over the lines
--   Server/Client         server/src/bin/grainstore.rs: from arguments to calls
--   Server/Client/Asked, Server/Client/Arrival, Server/Client/Commands   what the daemon is asked by them
--   Block, Block/Cluster, Block/Store   src/block.rs: Block::build, kmeans_assign, BlockStore
--   Block/Bloom, Block/Bloom/Laws       src/block.rs: Bloom
--   Block/Sketch, Block/Groups          the columns of a built block, and the groups they come from
--   Block/Point, Block/Count, Block/Scan, Block/Near   get, count_category and near on built blocks
--   Bits                  the bits of a number
--   Float, Sort, Sort/Nearest   the comparison of f32 values and the stable sort that queries use
--   Query, Query/Total, Query/Ranking   src/query.rs: near_join_select
--   Catalog, Planner, Planner/Bounds   src/catalog.rs, src/planner.rs
--   Disclosure         src/disclosure.rs: grain_tokens, build_summary, ContinuationCache
--   Disclosure/Cache, Disclosure/Spread   the cache, and the distances of a summary
--   Engine, Engine/Staged              src/engine.rs: GrainEngine
--   Governance, Governance/Governed    src/governance.rs: RuleSet, GovernedEngine
--   Governance/Policy, Governance/Rows, Governance/Spend   what they decide, show and debit
--   Base, Bytes           shared: tests, lists, maps; byte strings of fixed width and their order
--   Tests                 the theorems at concrete inputs
--
-- State is passed explicitly. How a write ends (synced, or failed when so many bytes had reached the
-- file) is an argument of each round, so every crash and every failure of the disk is an input; a
-- sequence of batches is a list. Numbers are natural numbers, and where the width of the Rust type
-- matters it is a hypothesis or is written out; the clock's increment wraps around, and the theorems
-- take it not to. The bit patterns of floats are stored and compared; arithmetic on floats, the
-- vector index where any will do, serde_json, and the policy are parameters. A request of the daemon
-- and a line of a session are handled one after the other, each with the ends of its writes and with
-- what the materializer does to the index while a load waits. A panic is `none`; a release build is
-- modelled, in which sums of usize wrap and debug assertions are left out, and an allocation panics
-- beyond 2^63 - 1 bytes. A theorem that says that a search or a sort returns takes its vectors to be long
-- enough, its distances to be no NaN where the comparison needs that, and its `k` to fit.
--
-- Fuel: the replay of a file has one round per byte of the file and one more, and each round that
-- goes on consumes a frame of at least eight bytes; the advance of the pool's watermark has one round
-- per pending commit, and each round that goes on takes one out; the representatives of a summary have one round per row,
-- and each round drops at least one; the search of a layer has one round per entry point and per node,
-- and each round takes a candidate away, which a node becomes at most once.
--
-- Not modelled: the want of memory for an allocation of fewer bytes; the panic of the standard library's
-- sort on an order that is not total; spawning, joining and time-outs of threads, since a thread is the sequence of what it
-- handles; what an error carries beside its kind; how near the neighbours are that the graph finds, which is a matter of statistics; of
-- the programs under server/src/bin, the sockets, files and terminals they read and write; the
-- benchmarks under examples/, which only print measurements.
pub mod Base
pub mod Bytes
pub mod Bits
pub mod Model
pub mod Keys
pub mod Kv
pub mod Error
pub mod Hlc
pub mod Cdc
pub mod Wal
pub mod Recovery
pub mod Float
pub mod Sort
pub mod Vector
pub mod Embed
pub mod Materializer
pub mod Durability
pub mod Truth
pub mod Query
pub mod Server
pub mod Catalog
pub mod Planner
pub mod Governance
pub mod Disclosure
pub mod Engine
pub mod Block
pub mod Tests
