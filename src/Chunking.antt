-- ===== src/Chunking.antt =====
-- crates/rqmd-core/src/chunking.rs: the constants and the types that its parts share.
-- Texts are bytes and positions are byte offsets, as in the code.
pub mod Snap
pub mod Patterns
pub mod Breaks
pub mod Windows
pub mod Tables
pub mod Document
mod Examples
use rqmd.Common.{ℕ}
use rqmd.Text.{Bytes}

abbrev pub chunk_size_chars : ℕ
chunk_size_chars = 3600

abbrev pub chunk_overlap_chars : ℕ
chunk_overlap_chars = 540

abbrev pub chunk_window_chars : ℕ
chunk_window_chars = 800

-- `types::Chunk`
pub record Chunk : Type 0 where
  pub text : Bytes
  pub pos : ℕ

-- Scores are the non-negative ones of the patterns and of the AST boundaries.
pub record BreakPoint : Type 0 where
  pub pos : ℕ
  pub score : ℕ

pub record CodeFenceRegion : Type 0 where
  pub start : ℕ
  pub end : ℕ
