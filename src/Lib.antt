-- ===== src/Lib.antt =====
-- The verification library of rqmd, a local search engine for markdown notes.
--
-- rqmd indexes collections of documents (crates/rqmd-core), embeds them with local models
-- (crates/rqmd-llm), and answers queries from a command line (crates/rqmd-cli) and an MCP server
-- (crates/rqmd-mcp). A document is cut into chunks; chunks are embedded, and also indexed as words by
-- Tantivy, with CJK text split into bigrams. A query is parsed, expanded by a model, run against both
-- indexes, and its ranked lists are fused; the best documents' chunks are reranked by a model. The
-- query cache keeps the models' answers. `get` and `multi-get` look documents up by path, glob or
-- hash.
--
-- Texts are lists of bytes, with the character boundaries of UTF-8 where the code slices; a slice out
-- of range or off a boundary is a panic (Text.Run). Machine integers are natural numbers, far below
-- 2^64 for texts and tables that fit in memory. State is passed and returned; an error is a value.
--
-- Which file models which part (paths below crates/rqmd-core/src):
-- - Common, Text: what the parts share. Text holds the functions of Rust's `str` that the code uses.
-- - Chunking: chunking.rs. Patterns has the regular expressions as matchers of a prefix and
--   `find_iter`; Breaks has scan_code_fences, scan_break_points and best_break_in_window; Snap the
--   snapping to character boundaries; Windows the loop of chunk_from_break_points; Tables has
--   scan_tables and carry_table_headers; Document has chunk_document and first_chunk. `\d` stands for a
--   parameter, the length of the digit that a text begins with.
-- - ModelCache: model_cache.rs. A file is its two tables, its schema version and the limit of rows; an
--   operation is one transaction. Ops has the keys and operations, the module itself the tables and the
--   eviction. SHA-256 and the crate's version are parameters.
-- - QueryCache: store/query_cache.rs, and rerank_candidates of store.rs. The state is
--   Store::model_cache, none while the cache is off. The backend's answers and the failures of SQLite
--   are parameters.
-- - Query: query.rs, the query language.
-- - Cjk: cjk_tokenizer.rs. The inner tokenizer is the list of its tokens.
-- - Resolve: resolve.rs, with the queries of db.rs that it runs over a list of rows (Resolve.Queries).
--   The index of resolve.rs and the clause of db.rs are modelled apart. globset is a parameter.
-- - Frontmatter: frontmatter.rs.
-- - EmbedExclusion: embed_exclusion.rs, over the rows of the join that it reads. globset is a parameter.
-- - Exclusions, Document: crates/rqmd-cli/src/exclusions.rs and document.rs. Document has `prepare`, Skips the
--   counts of skipped files, Clause the summary's folders, and Walk the walk over a tree.
-- - Lock: lock.rs. An operation is the list of its writes, of which any number may succeed; System has the
--   processes as a step relation, Owner what a process reads of a lock, and Unlock the command
--   crates/rqmd-cli/src/commands/unlock.rs, which is no step of the system.
-- - Store: the searches of store.rs. Sections has best_chunks, uncovered_text, keyword_terms and
--   nearest_chunk; Ordered has the sort by scores, a panic where some do not compare; Picks has rank_picks and picks_to_results; Recency recency_factor; Scope the scopes and
--   search_vec_scoped; Script the guard for languages; Retrieve has retrieve_ranked_lists and
--   parse_and_run_expansion; Rerank has fuse_and_resolve_candidates and select_chunks_and_rerank;
--   Assemble has assemble_results, Search hybrid_query_outcome_with, Keyword search_fts_multi_with, Vectors
--   search_vec_multi_with, Similar similar_to_hash, and Calendar format_rfc3339. A step takes the
--   state of the store's parts and returns a value, an error or a timeout. The parts are the record
--   Env: Tantivy, the vector index, the queries of SQLite, the models, the deadline, the clock, the
--   curve of the factor of recency, and what the code takes from Unicode. Timings and stages reported to an observer are left out.
-- - Rrf: rrf.rs over any type of scores with the operations of `f32` that the code uses.
--
-- The modules meet as the code does: QueryCache runs the operations of ModelCache.Ops, Rrf weighs by the
-- types of sub-queries of Query, Store runs the parser of Query and the fusion of Rrf, and Document the
-- scan of Frontmatter and the names of Exclusions.
--
-- Fuel: the cutting loop takes the bytes of the text, since each round starts further on. Batches
-- and parts of a list take its length, since a batch takes an element at least. The scan
-- for a closing fence takes the bytes of the text. A vector search that widens its pool takes a
-- round for every vector and two more, since a round doubles the pool until it has every vector.
--
-- A sort whose scores do not all compare, which NaN does not, may panic in std: the sorts of the picks, the
-- matches and the hits panic then, those of the fusion and of similar_to_hash are modelled where they return.
--
-- Not modelled: Tantivy, SQLite, the vector index, tree-sitter, the language models, files, processes
-- and the network; rounding of floating-point numbers; tracing. Of rqmd-core the indexing and
-- embedding of store.rs, the full-text index and the vector index are left out, and the crate for the models,
-- the commands other than those named above, and the server.
pub mod Chunking
pub mod Cjk
pub mod Common
pub mod Document
pub mod EmbedExclusion
pub mod Exclusions
pub mod Frontmatter
pub mod Lock
pub mod ModelCache
pub mod Query
pub mod QueryCache
pub mod Resolve
pub mod Rrf
pub mod Store
pub mod Text
