-- ===== src/Lib.antt =====
-- The repository holds two generations of a small network server in C: the onion HTTP server
-- (src/onion, with utilities in src/utils) and the opium core library (project/core, copied in
-- include/opium/core). This development models their data structures and text functions, one module
-- for each part, and proves what makes each part correct, or what it does where it is not.
--
-- Prelude: numbers, lists and blocks of memory. A block of memory is the list of its bytes, and a
--   pointer into it is an offset. `memcpy` and windows of a block are in Prelude/Memory.
-- Http/Search, Http/Token, Http/Line: the text functions of src/onion/http.c (`onion_chacha`,
--   `onion_stringa`, the tables of methods and versions, the range and header name checks), and the
--   splitting of the request line in src/onion/request.c. A C pair `start, size` is the list of the
--   bytes `start[0 .. size)`; a returned pointer is an offset in an `Option`.
-- Http/Buffer: `onion_http_buffer_t` of src/onion/http.c. The buffer holds its whole block; the
--   bytes from `start` to `end` are what waits to be read. The loop that doubles the capacity runs on
--   fuel: more fuel than the limit is enough, since the capacity grows in each round. `size_t`
--   doubling wraps at 2 ^ 64, and the limit of a valid buffer is below 2 ^ 62.
-- Http/Allocator: what the buffer and the parser ask of the allocator that they are given (the slab
--   allocator of src/utils/src/slab.c, by the names `malloc` and `realloc`), as a record of operations
--   and laws. When it refuses, and what a block holds that was made larger, is left open; no theorem
--   relies on a block of 0 bytes, which that allocator refuses.
-- Http/CString: what src/onion/request.c uses of the C library on strings (`strcasecmp`, `atoi`,
--   `strtol`), in the "C" locale.
-- Http/Request, Http/Headers, Http/Body, Http/Machine: src/onion/request.c. Http/Request has
--   `onion_http_request_t` with its life cycle and `onion_http_parse_start_line`, Http/Headers has
--   `onion_http_parse_headers`, Http/Body has `onion_http_parse_body` and what it calls, and
--   Http/Machine has `onion_http_request_parse`. A function that changes the request or the buffer
--   returns the new ones beside its result. A write behind the table of headers and a loop that does
--   not end are results of their own. The state machine has fuel for four rounds, one for each state
--   that a call can pass; the loop over the chunks has one more than the bytes that wait, since each
--   chunk takes some. A `memcpy` between places that overlap is the report `undefined`. The debug output is left out.
-- Http/Connection: `onion_http_parser_t` of src/onion/parser.c, with the buffer and the eight requests of
--   a connection. It puts the parts together: a call appends what was received to the buffer, has the
--   request parsed, and renews the buffer when the request is ready.
-- RingBuff: src/onion/ringbuff.c. `head` and `tail` are offsets. A write takes at most three rounds
--   of its loop, its fuel. The four bytes of a length lie as on a little-endian machine, and a
--   `memcpy` of a negative length is the result `fault`. Sizes and offsets are an `int` in the source: a
--   valid buffer has less than 2 ^ 30 bytes.
-- Rbt: project/core/opium_rbt.c and opium_rbt.h, on an explicit heap of nodes: a C function is a
--   function from the tree and its heap to a result and a new state, or a fault (a NULL pointer), or
--   `endless` where a loop runs out of its fuel. Rbt/Insert has `opium_rbt_node_insert` and
--   `opium_rbt_insert`, Rbt/Delete has `opium_rbt_delete`, and the rotations are in Rbt itself. What
--   `opium_slab_alloc` returns is an argument. Fuel one above that of the search that ends is enough
--   for an insertion, and deletion uses the fuel of that search.
-- Chain: the circular lists of project/core/opium_list.h, on a memory that holds a pair of links at
--   each address. A list with a head stands for the sequence of its entries (`Ring` in Chain/Ring).
-- IndexTable: src/utils/src/vector.c and src/utils/include/vector.h. The slots are a list, `none` where
--   `items` is NULL, and the count is a `size_t` that wraps at 2 ^ 64.
-- Bitmask: src/onion/sup.c. A word is a number, and its bits are read and written one by one. The search
--   of a run has fuel two above the size, since each round goes on behind a position that is at most the
--   size. Positions, which are an `int`, are taken to be below 2 ^ 31.
-- Pool: src/onion/pool.c, with the map of bytes and the rounding of src/utils/include/utils.h. A pointer to
--   a block is its offset in the pool, and an access behind the map is a result of its own. The rounding
--   has fuel for the 64 doublings of a size_t. A pool is created with memory for each of its parts.
-- OpiumSlab: project/core/opium_slab.c and opium_slab.h, for pointers of 8 bytes. The links of the three
--   lists stand in the memory of Chain, a page's entry at the address of the page; pages, and the bytes of the
--   slot headers, are functions of an address. What the system returns for a new chunk is an argument (a failed `mmap` is not noticed by the source), and
--   a page is still read after its chunk is given back. OpiumSlab/Alloc, /Free and /Walk have the operations;
--   the loop over the pages of a new chunk has fuel for two rounds, which is enough for pages of 128 bytes
--   and more, and none smaller is chosen; the loops over lists take their fuel as an argument. The power
--   of two that `log2` and `ceil` give is a parameter (`RoundsUp` in OpiumSlab/Layout).
-- OpiumArena: project/core/opium_arena.c, with `opium_round_of_two` and `opium_log2` of project/core/opium.c,
--   whose count of leading zeros is taken bit by bit. The slabs share the bytes of the slot headers.
-- UtilSlab: src/utils/src/slab.c, with the functions on bits of src/utils/include/utils.h; the rounding is
--   that of Pool. The bitmask is a function from an index to a word, `1 << bit` from bit 31 on is a
--   result of its own, and pointers are addresses of bytes. The addresses of the blocks are eight times as far
--   apart as the blocks are long; an access behind the pool is a result of its own.
-- Net: src/onion/net.c over the pools of src/onion/pool.c. A server or a peer is the offset of its block; the
--   sockets that the system returns and the sizes of the structures are arguments, and what is handed to
--   `free` is recorded. What C leaves open, such as a `free` of an address inside the memory of the blocks or on
--   the stack, or a stale pointer that is followed, is a result of its own. A long count below 0 is a number of 64 bits in two's complement.
-- Not modelled: the list of all pools, the event loop, the devices and the sockets (src/onion/epoll.c,
--   device.c, socket.c), allocation from the system, logging, threads and locks, and the copies of
--   the core library under include. What only prints or only frees memory is left out.
pub mod Prelude
pub mod Http
pub mod RingBuff
pub mod Rbt
pub mod Chain
pub mod IndexTable
pub mod Bitmask
pub mod Pool
pub mod OpiumSlab
pub mod OpiumArena
pub mod UtilSlab
pub mod Net
