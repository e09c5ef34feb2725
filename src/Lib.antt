-- ===== src/Lib.antt =====
-- leactor: an event loop with timeouts, pools of memory, and an HTTP proxy whose parsers are
-- written for input that arrives in pieces. This library models the parts that carry the program's
-- logic and proves what they do.
--
-- How the parts interact. The loop of event_lea.c keeps the events with a timeout in the heap of
-- lea_heap.c, which writes each event's place into the event itself, so that the event can be
-- erased later. Events, requests and buffers come from the pools of lt_pool.c. A request's bytes
-- are read into a buffer and parsed by ngx_http_parse.c: the request line, then one header line at
-- a time; an upstream's answer begins with a status line. A parser that runs out of bytes answers
-- LAGAIN and is called again when more have come. The value of the header Host goes through
-- http_parse.c.
--
-- Where each part is:
--   Prelude         shared names; Prelude/Tests, Boolean tests; Prelude/Lists, lists with lengths in
--                   the numbers of the arithmetic tactics; Prelude/Memory, addresses and
--                   runs; Prelude/Links, chains of addresses.
--   Time            lt_time_addition, lt_ev_check_timeout and the comparison of times of event_lea.c.
--   Event           `struct event` of event_lea.h.
--   Heap            lea_heap.c: `push` is min_heap_push_, `pop` min_heap_pop_, `erase`
--                   min_heap_erase_, `reserve` min_heap_reserve_, `shift_up`, `shift_up_unconditional`
--                   and `shift_down` the functions of these names. Heap/Sift states what an
--                   upward or downward shift does, Heap/Shift proves it of the three, Heap/Push,
--                   Heap/Remove and Heap/Erase are about the operations, Heap/Order about the order.
--   Pool            lt_pool.c: `alloc` is lt_alloc, `destroy_memory_pool` lt_destroy_memory_pool,
--                   `new_memory_pool` and `new_memory_pool_manager` the functions of these names.
--   Request         the fields of request_t, http_status_t and lt_buffer_t that the parsers use.
--   Parse           ngx_http_parse.c: Parse/RequestLine, Parse/HeaderLine and Parse/StatusLine are its
--                   three functions, with one definition `case_...` for each state of the switch.
--                   Parse/Scan and Parse/Resume are about the loop that they share. In each
--                   parser's folder, Chunks is about input that comes in pieces, Rounds about single
--                   bytes, and Line or Field about a whole line.
--   Host            http_process_host of http_parse.c, and its specification in Host/Spec.
--   Loop            the events of event_lea.c: `new_event` is lt_new_event, `del_event` lt_del_event,
--                   `timeout_add` lt_timeout_add, `io_add`, `io_mod` and `io_remove` are lt_io_add,
--                   lt_io_mod and lt_io_remove. Loop/Timers is about the heap under these calls,
--                   Loop/FreeList about the free list, and Loop/Init is lt_base_init and
--                   lt_new_post_callback. Loop/Active is one round of the loop: `init_actlist` is
--                   lt_loop_init_actlist, `process_and_moveout` lt_ev_process_and_moveout; Loop/Serve's
--                   `base_loop` is lt_base_loop.
--   Buffers         the buffers of buffer_op_lea.c: `new_buffer` is lt_new_buffer, `new_buffer_chain`
--                   lt_new_buffer_chain, Buffers/Recv's `recv` lt_recv, and
--                   Buffers/Send is send_buffers. Buffers/Pooled makes the
--                   pool their allocator; Buffers/Chain is about lists of buffers and their bytes.
--   Chains          send_chains of buffer_op_lea.c.
--   Http            http.c: Http/Line is http_request_line_parsed, Http/Hash BKDRhash, Http/Headers
--                   http_process_request_headers with http_process_element, Http/Construct the chains of
--                   a request and of a response, Http/Forward http_process_request_line,
--                   Http/Answer http_process_response_line, and Http/Free http_create_request and
--                   http_finish_request.
--   Proxy           the states of the connections of proxy.c and http_send_to_client of http.c, as steps
--                   that the calls of the handlers make in any order; Proxy/Order is about what
--                   reaches the client.
--
-- State is passed explicitly. Memory is a function of the address, an address is a number and NULL
-- is 0. `unsigned` and `size_t` keep their wrap-around, but for the index of a child in the heap,
-- which is exact for fewer than 2 ^ 31 events; a number of type `int` that only counts up is its
-- bit pattern below 2 ^ 32. A sum of type `long` is undefined from 2 ^ 63 on, and a size_t stored
-- in an `int` by send_chains or send_buffers may become negative. The header line parser's
-- differences of pointers stop at 0, which makes a difference only for requests that no run of it
-- reaches. A `char` is its byte; where its sign matters, the index into the table of usual bytes
-- has the outcome `undefined`, and BKDRhash extends the sign. The C library is a parameter where
-- its result matters: realloc and aligned_alloc may fail, tolower is any function, and recv, writev
-- and the callbacks of events are interfaces. The bytes of a request and the structures that
-- describe them are apart in memory.
--
-- Loops. The parsers run once for each byte left in the buffer. The upward loop of the heap gets as
-- many rounds as the index it starts at, which at least halves in a round, and the downward loop as
-- many as the heap has events, while its index grows. The carry of lt_time_addition gets one round
-- for each whole second. lt_destroy_memory_pool gets two rounds, since its second one ends the run.
-- The loops of buffer_op_lea.c and http.c run on fuel: a chain of buffers gets a round for each
-- byte asked for and one more, lt_recv one for each byte to come and one more, send_chains one for
-- each piece and one more, send_buffers one for each buffer and one more, the header loop one for
-- each field and one more, and the construction of a chain one for each field. These are enough.
-- The list of active events gets a round for each ready event and one more, which is enough as long
-- as no link of an earlier round is left. lt_base_loop runs over a list of the answers of
-- epoll_wait.
--
-- Not modelled: start_accept with lt_accept and http_init_connection; the calls of the system that
-- listen and connect, and the copies of fields around them; the start of the program in main.c;
-- printing. The prints of the modelled functions are left out.
pub mod Prelude
pub mod Time
pub mod Event
pub mod Heap
pub mod Pool
pub mod Request
pub mod Parse
pub mod Host
pub mod Loop
pub mod Buffers
pub mod Chains
pub mod Http
pub mod Proxy
