-- ===== src/Lib.antt =====
-- cutil, a library of C data structures (src/ of the repository).
--
-- LinkedList and ListItem model src/list.c and src/list.h: a dynamic list kept as two circular
-- doubly linked lists of indices, the used and the free one, in one array of items. ListItem has
-- the array and the two splices, LinkedList the struct `list_t` and the public functions;
-- LinkedList.Edit has `list_push` and `list_pop`, and LinkedList.Deque the macros of src/list.h on
-- the two ends. A list argument is a pointer that is not NULL; a function that changes `*list`
-- returns the new value.
--
-- Bitset models src/bitset.c: a set of bits in an array of 32-bit words. Buffer models src/buffer.c:
-- a growing array of bytes.
--
-- HashTable models src/hashtable.c on top of LinkedList: an array of lists, of which the hash of a
-- datum chooses one. HashTable has the struct and the lookup, HashTable.Edit the functions that change
-- a table, HashTable.Iterate the iterators. The functions `ht_insert` and `ht_grow` call one another,
-- to a depth given by fuel. Comparisons with the float load limit are an argument.
--
-- BinaryTree models src/btree.c: an AVL tree of nodes with parent pointers, threaded in order, and
-- a free list of nodes from blocks. The memory is a store: a map for each field of `node_t`, from
-- addresses, with 0 for NULL; a node is at an address up to the number of allocated nodes. BinaryTree has
-- the lookups and iterators, BinaryTree.Rotate the rotations, each function of a mirrored pair being one
-- function of a side, BinaryTree.Pool the blocks and the free list, BinaryTree.Edit the insertion
-- and balancing, BinaryTree.Remove the removal. Shape says which tree the links are, in a context,
-- and Valid what a well-formed tree is. The compare function is an argument; the theorems take as a
-- hypothesis that it is an order (BinaryTree.Order.IsOrder), which `default_key_cmp` is. A loop
-- through the tree has one round of fuel more than `size`. A failed ASSERT is a fault.
--
-- Sanitize models `build_clean_environ` of src/sanitize.c: the pass that counts, and the pass that copies
-- strings and pointers into the new block. `getenv` and the standard path are arguments.
--
-- A run (Prelude.Outcome) ends in a result, in a `fault` (undefined behaviour, such as an access
-- outside an array), or in `out_of_fuel`. The loops over links have `count + 1` rounds of fuel and
-- the doubling of an array's size has 65: the theorems show that these are enough. `int_t` and
-- `uint_t` are those of a 64-bit platform. Whether CALLOC succeeds is an argument.
--
-- Not modelled: the switches of the unit tests (UNIT_TEST_RET and its like), the release of memory
-- by FREE, `bt_print`, and the parts that only call the operating system or libev.
pub mod BinaryTree
pub mod Bitset
pub mod Buffer
pub mod HashTable
pub mod LinkedList
pub mod ListItem
pub mod Prelude
pub mod Sanitize
