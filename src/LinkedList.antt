-- ===== src/LinkedList.antt =====
-- libs/DSA/linked_list: linked_list.h and linked_list.c, a doubly linked list on a heap of nodes.
pub mod Memory
pub mod Seg
pub mod Header
pub mod Push
pub mod Pop
pub mod Search
pub mod Clear
pub mod Sort
pub mod Select
mod Tests
