-- ===== src/Marshal.antt =====
-- src/misc/marshal.hpp and marshal.cpp, class Marshal: a queue of bytes in a chain of chunks.
pub mod Memory
pub mod Chunk
pub mod Buffer
pub mod Wire
pub mod Containers
pub mod Bookmark
pub mod Slice
pub mod Socket
