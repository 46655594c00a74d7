-- ===== src/Trie.antt =====
-- trie/encoding.go: the three encodings of trie keys. `Trie/Encoding.antt` holds the functions.
pub mod Encoding
pub mod Nodes
