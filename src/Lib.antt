-- ===== src/Lib.antt =====
-- bklib is a library of C modules: containers (arrays, hash tables, linked lists), memory pools,
-- sockets with an event loop and a send queue, network protocols (DNS, HTTP, TCP tracking) and glue
-- to the operating system. The containers carry the rest: a hash table is a block of arrays, and the
-- send queue is an array of buffers, and a pool of pointers is a hash table of
-- counts. This library models these four, each over the operations of the one below as the code
-- calls them, and four modules that stand alone: linked lists, the machine that counts
-- retries, the command-line options, and the headers of network packets.
--
-- Base holds what the modules share: numbers and Boolean tests, lists, the integers of C where their
-- sign matters (Base/Int), and outcomes (Base/Outcome). A function that may do what C leaves
-- undefined, as an access outside a block or through a null pointer, returns `Run`, whose `fault` is
-- that; a function that reports an error returns the error as a value.
--
-- Array models array.c, array.h and array_inline.c: `array_t` is the record `Array`, a cell of the
-- block is a value, and a pointer into the block is an index.
--   Array         the struct; array_init, _import, _extract, _set_free, _clear, _get, _remove_idx,
--                 _remove_ptr
--   Array/Cells   realloc, memcpy, memset and memmove on one block, and `Memory`, which says what
--                 realloc grants
--   Array/Grow    array_add, _append, _insert, _copy, _concat, _set_count
--   Array/Search  array_find, _add_nodup, _subset, _bsearch
--   Array/Contents, Array/Grow/*, Array/Remove, Array/Search/* prove their properties.
--
-- Hash models hash.c and hash.h: `hash_t` is the record `Hash`, and the calls of the free callbacks
-- are kept in its field `freed`. The block of buckets is a list, as long as the count of buckets says
-- wherever the two were set together; the loops over all buckets go down the list.
--   Hash            the structs; hash_init, _set_free, _get, _put, _remove, _free, _resize,
--                   _resize_next
--   Hash/Walk       hash_foreach, _clear, _stat
--   Hash/Functions  the hash and comparison functions for integers and strings
-- Hash/Map says what it is that a table models a map, and Hash/Updates that get, put and remove are
-- those of the map; the other files of Hash lead there: Chains and Table (nodes in buckets), Find,
-- Erase, Free, Visit and Resize (one operation each), Growth (the next size), Touch and Modify (a
-- value written in place).
--
-- Sendlist models sendlist.c and sendlist.h: `sendlist_t` is the record `Sendlist`. `System` stands
-- for write, sendfile, shutdown, and the registration with the event loop; `IsSocket` in
-- Sendlist/Stream is what their documentation says, and Sendlist/Tests has a socket that satisfies
-- it. Sendlist/Queue, Stream, Turn, Flush and Send prove the properties.
--
-- Pool models pool.c and pool.h: `pool_t` is the record `Pool` around a hash table; Pool/Counts
-- proves what the reference counts do, over the table as a map (Hash/Updates) and the write through
-- the pointer to a value (Hash/Modify).
--
-- State models state.c and state.h: `state_t` is the record `State`, and `Clock` stands for the
-- arithmetic of the doubles that are its times. State/Rows and State/Retries prove its properties.
--
-- Llist models llist.h. The links in the nodes are a store, a function from addresses, and a list is the
-- address of its own node, `head`, and its tail; a new node's address is not null. Llist/Chain says what
-- a chain of links is, Llist/Splice what the writes change, and Llist/Linked what the operations do.
--
-- Opt models opt.c and opt.h. A text is a list of its bytes, which holds no zero, and the zero at its
-- end is a test for the end of the list; `int` and `long` have 32 and 64 bits; `strtod` is a parameter
-- where its result is stored.
--   Opt/Quote    opt_quoted_enc_style, _enc, _dec
--   Opt/Words    opt_needs_quote, opt_cat, opt_str2argv
--   Opt/Texts    opt_verify_word, the search for an alias in a name, and calls of the C library
--   Opt/Number   strtol and strtoul
--   Opt/Options  opt_namev2optv, opt_get, opt_setval, opt_argv2optv
--   Opt/Iter     the iterator: opt_get_argv, opt_perror
-- The files below them prove their properties.
--
-- Netpkt models netpkt.c, netpkt.h, netpkt_inline.c and the layout of the headers in netpkt_inet.h.
-- Memory is one list of bytes and a pointer an index into it; words are little-endian, `char` is
-- signed. Lengths in the struct are integers, for the code subtracts without a test.
--   Netpkt          the struct; netpkt_init, netpkt_init_max, the parsers of IP, ARP and Ethernet
--   Netpkt/Memory   bytes and words in memory, memcpy and memset
--   Netpkt/Cksum    netpkt_cksum_in, _in_final, _ip, _tcp, _udp, _set, _check, netpkt_adjust_cksum
--   Netpkt/Seq      tcp_seq_diff, tcp_seq_next
--   Netpkt/Options  the enumeration of options, netpkt_tcp_remove_sack
--   Netpkt/Build    netpkt_new_*, netpkt_add_hdr, netpkt_adjust_ip_src_dst, the addresses
-- Netpkt/Words, Parse, Adjust, Cksum/* and Options/* prove their properties.
--
-- Fuel: the loop of array_bsearch has as much as there are elements, for each turn makes the range
-- shorter; the doubling of hash_resize_next has 33 turns, for 32 shifts bring every word to 0; the
-- loops of the send queue have one more than there are sendbufs, for each turn that goes on takes
-- one out; the loops of opt_quoted_dec and opt_str2argv read a byte in each turn, those of opt_get and
-- of the option tables go to the end of a text or a table, and that of netpkt_tcp_remove_sack passes
-- a byte of the options in each turn. The other loops go down a list or a count.
-- Counts and sizes are natural numbers: an array whose count or size in bytes passes 2 ^ 31 is
-- outside the model. Words keep their wrap-around in hash_resize_next, in the hash functions and in
-- the comparison of integer keys.
--
-- Not modelled: array_qsort, which calls qsort; callbacks that change the container that calls
-- them; the copies of text and buffers into a pool; the addresses inside a node at which hash.c
-- keeps copied keys and values; what opt_print.c, opt_perror and the netpkt_fmt functions print; the
-- allocation of pktbufs. Sums of 16-bit words are below 2 ^ 31, and the bytes that one call of the
-- packet builders writes in different places are written in an order of the model's own. The other
-- modules of bklib have no model yet.
pub mod Array
pub mod Base
pub mod Hash
pub mod Llist
pub mod Netpkt
pub mod Opt
pub mod Pool
pub mod Sendlist
pub mod State
