-- ===== src/DataStructures.antt =====
-- The data structures of language/python/standard-library/data_structures: the searches in a sorted
-- sequence (BinarySearch) and the stack that knows its minimum (MinStack).
pub mod BinarySearch
pub mod Searches
pub mod MinStack
mod Tests
