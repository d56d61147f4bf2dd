-- ===== src/Lib.antt =====
-- A model of wenas, a library for peer-to-peer messages in C (src/xnet), with its correctness
-- theorems.
--
-- src/xnet/xline.h is the format of every message. An object is a run of entries, each a key and a
-- line: nine bytes of type and number, and the bytes of a string, a block, an object or a list
-- behind them. `struct xframe` is a growing buffer in which a client builds an object; `struct
-- xparser` reads one. xmsger.c sends frames over the network, xltp.c and xlio.c are the clients that
-- build and read them. A pipe (src/xnet/xpipe.h) carries bytes from one thread to another, through a
-- ring whose counters run on and wrap. A heap (src/xnet/xheap.h) keeps timers in the order of their
-- keys; each node knows its place in the array, so that it can be removed.
--
--   Base              names that all modules share; Base/Tests tests on numbers and the arithmetic
--                     of `uint64_t`, Base/Lists lists as C arrays, Base/Results how a run ends,
--                     Base/Masks bits as remainders, Base/Windows a list as a ring
--   Line              the line: `__xl_n2b`, `__xl_b2n`, `__xl_sizeof_line`; Line/Number its bytes
--   Line/Frame        `struct xframe`, `xl_creator`, `xl_free`, `__xl_fill_key`, `__xl_realloc`;
--                     Line/Frame/Valid the invariant of a frame
--   Line/Build        `xl_add_*`, `xl_obj_begin`, `xl_obj_end`, `xl_list_*`; its children say what
--                     they append, how they nest and what happens without memory
--   Line/Value        the specification: values, and the bytes of an object
--   Line/Parser       `xl_parser`, `xl_next`, `xl_find*`, `xl_set_value`; its children follow them
--                     entry by entry
--   Line/RoundTrip    from the builder to the parser
--   Line/Examples     concrete objects, and in Line/ReadExamples their parsers
--   Pipe              src/xnet/xpipe.h: `struct xpipe`, `__xpipe_write`, `__xpipe_read`, `xpipe_create`;
--                     its children say when a pipe is in order, what a copy into the ring does, and
--                     how writes and reads in any order act on a queue (Pipe/Queue)
--   Heap              src/xnet/xheap.h: `struct xheap`, `xheap_push`, `xheap_pop`, `xheap_remove`; its
--                     children say when a heap is in order (Heap/Valid), how nodes move (Heap/Move,
--                     Heap/Swap), and follow the rising and the sinking of a node
--   Uuid              src/xnet/uuid.h and uuid.c: `str2uuid` and `uuid2str` (Uuid/Hex), `uuid_compare` and
--                     `number_compare` (Uuid/Order)
--
--   Msger             src/xnet/xmsger.c: the packs, the channel, the ring buffers with their 16-bit positions,
--                     and the API that the code calls; Msger/Send `xmsg_fixed`, `xchannel_serial_msg`,
--                     `xchannel_send_pack`; Msger/Acks `xchannel_sampling`, `xchannel_recv_ack`;
--                     Msger/Receive `xchannel_recv_pack`, `xchannel_recv_msg`; Msger/Resend
--                     `xmsger_send_all`; Msger/Peers creating, clearing and freeing a channel, queueing
--                     a message, `xmsger_local_recv`; Msger/Loop `msger_loop`
--   Msger/Places      where a number of a pack lies in a buffer; Msger/Inbox, Msger/Window, Msger/Reading
--                     and Msger/Placing lead to the order of what is received (Msger/InOrder);
--                     Msger/Parts, Msger/Passing and Msger/Transfer to whole messages (Msger/Whole);
--                     Msger/Sending, Msger/Sampling, Msger/Acking and Msger/Retrying to what an
--                     acknowledgement does (Msger/Answering); Msger/Cutting, Msger/Making and
--                     Msger/Leaving to what sending a pack does (Msger/Going); Msger/Fragments, Msger/Keys,
--                     Msger/Opening and Msger/Clearing are about `xmsg_fixed`, the keys of the peers, a new
--                     channel and its end; Msger/Arrivals about packs that come in any order
--
--   Trie              src/xnet/xtree.h: `xtree_add`, `xtree_find`, `xtree_del` on the half bytes of a key;
--                     Trie/Adding what an addition adds, Trie/Undoing how a deletion takes it back
--
-- A channel of xmsger.c sends each message as numbered packs. The sender's buffer has three positions:
-- the first pack that is not acknowledged, the first not sent, the first not made. The receiver puts a
-- pack where its number says, and reads on while the next is there. The positions are `uint16_t` and
-- wrap; the theorems count the packs without wrap-around and relate the two. A message is shared by
-- the user, the channel's queue and the packs: the model keeps messages in a store, and pointers to
-- them are numbers. The clock and whether the network takes a datagram are arbitrary functions of how
-- often they have been asked, the AVL tree of the peers is a record of its operations, and a callback
-- is an event in a log: what the user does in it is not part of the model. The products with 1.5 are
-- exact in a `double` below 2 ^ 52, and so they are taken.
--
-- How C is read. A function that changes a struct takes its record and returns the new one; a
-- function that can fail returns what the source returns (`XEOF`, NULL). A read or a write outside
-- the memory behind a pointer is `fault`, so a theorem that a function yields a result also says
-- that it stays inside its memory. Numbers of type `uint64_t` wrap at 2 ^ 64 where the source adds or
-- subtracts. `malloc` (src/xnet/xmalloc.c, or the C library's) is a parameter: it answers a size
-- with bytes of unspecified content or with nothing; a theorem assumes of it that the bytes are as
-- many as were asked for, and that it never gives more than 2 ^ 62. What the code allocates beyond
-- the size that it names belongs to the model too: `struct xframe` ends with 7 bytes of padding behind
-- `ptr`, and a buffer of packs has one slot more than its range, since the struct holds one itself.
--
-- Loops run on fuel. The loops of `xl_find` need one turn more than the object has entries, and the
-- theorems on `xl_find` give that much. The loop that doubles the size of a ring needs one turn for
-- each bit of the request, and gets 64. The loops of the heap need no more turns than it has
-- nodes, and a theorem on them gives one more where it asks for it.
-- The loops over a buffer of packs get one turn more than its range, those over positions 2 ^ 16,
-- of which there are no more; the theorems on them show that this is enough.
--
-- Not modelled: printing (`xl_format`, `xl_printf`), the files of src/xapi (system calls), the
-- vendored libraries of src/xapi/dep, and the parts of src/xnet and src/xlib that the list above does
-- not name. Of xmsger.c, starting and stopping the thread and the sockets is left out, and the local
-- datagrams that the other threads send. Of the pipe, the loops of `xpipe_write` and `xpipe_read` that
-- wait for the other thread are left out, with the mutex.
pub mod Base
pub mod Heap
pub mod Line
pub mod Msger
pub mod Pipe
pub mod Trie
pub mod Uuid
