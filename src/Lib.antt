-- ===== src/Lib.antt =====
-- The workqueue library in C: bounded queues of messages between threads, with the helpers that
-- come with it. This development models its sources and proves what they do.
--
-- Parts, and how they interact:
--   * WQ.c with _WQ.h is the queue: a ring of slots with two cursors, a lock and two counting
--     semaphores. `WQ_send` takes a unit of `writer`, fills the slot at the tail and releases a
--     unit of `reader`; `WQ_recv` gives back the slot that it handed out last and takes the
--     next. Modelled in WorkQueue: Slots (`struct element` as `Element`, `struct WQ` as `Wq`,
--     `q_iNext` as `next_cursor`), Calls (`WQ_recv` as `recv`, `WQ_send` as `send`), Open
--     (`WQ_open` as `create`, `threshold`). Mailbox is what a queue promises; Invariant is when
--     a queue is valid and which mailbox it stands for; Session is the refinement. Threads has
--     several senders and the receiver in calls at the same time: Moves (their steps),
--     Invariant, Safety, Progress, Answers.
--   * Platform.c holds the locks. Modelled in Platform: Clock (`timeconv_abs`), Locks
--     (`Platform_semaphore_lock`, `Platform_criticalsection_lock`), Codes (the codes of WQ.h),
--     and Run, the results of C code: it returns, waits for ever, or reaches outside its memory.
--   * language.c converts between UTF-8 and UTF-16 and between bytes and hexadecimal digits.
--     Modelled in Language: Widths (the `_len` functions), Copies (the `_copy` functions),
--     Transcode (the functions that allocate and `_transcode_table`), Hex.
--   * Utils.c has the dictionary, a list of entries. Modelled in Dictionary: Calls (the
--     functions, by their names without `Dictionary_`), Adds (the map a dictionary stands for),
--     Removal. The heap is outside of its test mode there: `libwq_malloc` clears a block that it
--     did not get.
--   * NetGroup.c runs a thread for each host, which waits on its queue with `WQ_recv` until its
--     next alarm and routes what arrives. Modelled in NetGroup: Alarms (`alarm_schdule`,
--     starting and ending alarms), Routes (`NetGroup_membership_join` and `_drop`, the receivers
--     of a multicast), Routing (`host_routing`), Loop (`host_start_routine`). Over the queues of
--     WorkQueue: Packets (the bytes of a message), Hosts (`host_in`), Casts (the functions that
--     send, `NetGroup_router_delete`), Delivery, Turns (`WQ_recv` and `host_routing`), Server
--     (`message_server_start_routine` behind `select`), Shifting, Buffering, Destinations and
--     Sending (`NetGroup_router_send_message`), Unicast, Registering, Deleting, and Groups
--     (`NetGroup_router_create` as far as it concerns the hosts).
--   * ds.c links elements of the caller by their first field. Modelled in Chains over an
--     explicit store of links: Calls (the functions on queues and stacks, and `_list_link`),
--     Shape (which elements a chain runs through), Queues, Stacks, Lists (finding, unlinking and
--     clearing), Doubles, DoubleLists and DoubleUnlink (double lists), Again (elements that are
--     added a second time); Trees (the functions on trees), Forests (the shape of a tree,
--     searching and visiting), Clearing, Families (the children of an element, linking),
--     FamilyCut (unlinking).
--   * Heap.c, in its test mode, puts each block on pages of its own with checks around it, in a
--     list. Modelled in Heap over memory by bytes: Layout (where the fields lie,
--     `page_require_test`), Calls (`__link_page` as `link_page`, `__generate_page` as
--     `generate_page`, `__unlink_page`, `__remove_page` as `libwq_free`), Linked and Blocks
--     (which blocks a list holds and when it is valid), Malloc, Free, Release, Listing
--     (`print_linked_page`).
--   * Sp.c counts the references to blocks of memory, which it links in a list. Modelled in
--     Shared: Calls (the functions, by their names), Counts (any sequence of calls), Releases.
--   * WQIpc.c is a queue between processes, in shared memory. Modelled in Ipc: Calls
--     (`WQIpc_send`, `WQIpc_owner_recv`, the drain), Open (`_WQIpc_open`), Send, Recv.
--   * debug.c gives messages to files, sockets, functions of the caller and the console.
--     Modelled in Debug: Sinks (the registrations and `_debug`), Messages, Listing
--     (`_debug_memory`), Layout, Rows.
--   * Prelude holds the shared names of the library, Boolean tests and lemmas on lists.
--
-- POSIX semaphores and mutexes are not code of the repository: Platform/Posix is an interface
-- with their documented laws, and Platform/Counting an instance of it. In the model of single
-- calls no thread acts during a call, so that a wait on an empty semaphore ends only by its
-- deadline; in Threads the steps of all threads interleave, and there is one receiver. A queue
-- or lock is never NULL; the data pointer of `WQ_send` may be. A `_dword` is a number with its
-- wrap-around written out where the source adds to it; so are the lengths of language.c, which
-- do not wrap for texts in memory of less than 2^30 bytes or units.
--
-- Bounds and fuel: the drain of `WQ_close` runs on fuel, and one unit more than messages wait is
-- enough; the loops over the links of ds.c and Sp.c run on fuel, and one unit more than there are
-- elements is enough; the loops of Heap.c run on fuel, for which the layout of the block asked
-- for and the number of blocks are the bounds. All other loops are structural: a linked list
-- that no other pointer enters is a list.
--
-- The callbacks of a host are not code of the repository: what is modelled is which are called,
-- with what, and they leave the alarms alone. The decoder and the encoder of a router are
-- arguments of the model, as are what `recvfrom`, `sendto`, `vsnprintf` and `%p` give.
--
-- Not modelled: the release of memory at the end of a queue, threads, what the system does for
-- named semaphores and shared memory beyond the interface in Ipc/Open, the sockets of
-- NetGroup.c, the windows branches of Platform.c, `get_process`, the server of messages in
-- debug.c, and the calls of Heap.c outside of its test mode.
pub mod Prelude
pub mod Platform
pub mod WorkQueue
pub mod Dictionary
pub mod Heap
pub mod NetGroup
pub mod Shared
pub mod Chains
pub mod Debug
pub mod Language
pub mod Ipc
