-- ===== src/Lib.antt =====
-- A library on the servers in HTTP_server_learning/ and the parts that they are built from.
--
-- A client's bytes arrive at a socket; the main loop of http_web_server.cpp hands the connection
-- (http_conn.h, http_conn.cpp) to a worker of the pool (threadpool.h, on the locks of locker.h), which
-- parses the request and prepares the answer. http_parse.cpp is an earlier parser with a server of its
-- own. Idle connections are timed by the list of sort_timer_list.cpp, the wheel of
-- time_wheel_timer.cpp or the heap of time_heap.h. processpool.cpp is the same kind of server with
-- processes in place of threads, and chatroom_server.cpp a server of its own.
--
--   Prelude: the results of a run (a value, an exception, a fault such as a read out of bounds or of a
--     freed object, or no fuel), arrays as functions, lists and integers over the native numbers, and
--     sums over threads.
--   CString: the C library's functions on strings that the parsers call, with the bytes of a string in
--     a buffer up to its NUL; a string without a NUL in the buffer is a fault. Laws is about these
--     functions, and Spells about the places where a text stands in a buffer.
--   TimeHeap: HTTP_server_learning/time_heap.h. A timer is a record in a store, the heap an array of
--     slots. Order says when a heap is valid, Down and Up are about the two loops, the second also as
--     it must mean line 89, and Insert, Remove, Ticks and Cancel about the operations that use them.
--   Links: doubly linked nodes in a store of addresses, on which the next two stand. Chain says that a
--     store holds a list, Ends is about its two ends, and Unlink about taking a node out.
--   TimerList: HTTP_server_learning/sort_timer_list.cpp. Spec has the sorted list that the nodes stand
--     for, Inserted, Insert, Delete, Adjust and Ticks are about the operations, and Refines about both
--     together.
--   TimeWheel: HTTP_server_learning/time_wheel_timer.cpp. Spec has a list of timers for each slot,
--     Slots is about one slot, Adds, Removes, Rolls and Ticks about the operations, and OnTime about
--     many ticks.
--   ThreadPool: HTTP_server_learning/threadpool.h and locker.h. A state has the pool and a program
--     counter for each thread, and Step is one call on the mutex or the semaphore by any thread.
--     Invariant is about one step, and Safety about the states that can be reached. Locks has what the
--     classes of locker.h initialise and release.
--   ProcessPool: HTTP_server_learning/processpool.cpp. The parent's loop run_parent and the child's
--     run_child go through the results of epoll_wait. Turns is about the round robin, Children about
--     those that end, Stop about the end of the parent, Start about the constructor; Child has the
--     child's loop, and Served is about it.
--   HttpParse: HTTP_server_learning/http_parse.cpp. serve is the loop of main.
--   HttpConn: HTTP_server_learning/http_conn.h and http_conn.cpp. Line has parse_line, Request the
--     parser above it and do_request, Response the writing of the answer into the write buffer, Reply
--     write and process. Line/Chunks and Line/Whole are about lines in pieces and whole lines, Stored
--     about the bytes that read and add_response store. Request/Accept, HeaderLines, Found, Serves,
--     Whole and Arrives follow a request through the request line, a header, do_request, the headers,
--     process_read and read; Halting and Fuel are about the end of its loops; Response/Digits, Sent
--     and Pages are about the text of an answer, and Bounds about its place. Reply/Answered has a
--     request from its bytes to its answer, and Reply/Session many on one connection; turn, in
--     Reply/Asked, puts read, process and write together as the events of http_web_server.cpp and its
--     workers do. Transfers and Effects are about the socket and the number of users.
--   WebServer: HTTP_server_learning/http_web_server.cpp, over HttpConn and ThreadPool. Users has what
--     holds of the connections, Events the events of the main loop, and Turns the turns of the main
--     loop and the workers in any order.
--   ChatRoom: HTTP_server_learning/chatroom_server.cpp, with its own loop over poll. Table and Users
--     are about the table of users in the branches, Rounds about the loop, and Messages about what is
--     sent.
--   ChatClient: HTTP_server_learning/chatroom_client.cpp; Typed is about what it passes on.
--   IdleConns: HTTP_server_learning/close_inactive_connection.cpp, over TimerList. Spec says what
--     holds between the connections and the timers, Clients is about the branches, Expiry about the
--     alarm and Loop about the loop of main.
--   EpollModes: HTTP_server_learning/epoll_LT_ET.cpp, and in OneShot
--     HTTP_server_learning/epoll_one_shot.cpp. Modes is about lt and et.
--   UnifiedEvents: HTTP_server_learning/unified_event_source.cpp; Signals is about the end of its
--     loop.
--   Connect: unblock_connect of HTTP_server_learning/nonblocking_connect.cpp; Outcome is about the
--     socket.
--   WritevResponse: HTTP_server_learning/writev_http_response.cpp; Answers is about what is sent.
--   Echo: HTTP_server_learning/reflect_tcp_udp.cpp; Echoes is about what it sends back.
--   Du: du_scratch.cpp. Path is about the buffer of the path, and Sizes about the lines.
--   MemCopy: C_C++/memcpy_memmove_scratch.cpp; Copied is about what it copies.
--   Tail: tail_scratch.cpp; Lines is about the lines that it prints.
--   CgiServer: HTTP_server_learning/CGI_concurrent_pool.cpp, the connections that a child of the
--     process pool serves. Bounds is about their buffer.
--
-- Loops take fuel or rounds. The loop of parse_line has as many rounds as there are unread bytes, and
-- the round robin of the process pool as many as there are children. The loops of the heap have one
-- more than the entries that they may pass, and tick one more than the timers, since each round passes
-- an entry or takes a timer off. process_read has two rounds for each byte of its buffer, and two,
-- since a complete line moves it on by a byte at least and a body takes one round more. The loops of
-- the timer list and of the wheel have one round for each timer and one more; IdleConns gives as many
-- as there are entries of users and one more, since each timer has an entry of its own. read, write,
-- the loops over events and the two functions serve go through the results of the system calls that
-- are given.
--
-- Numbers are not bounded by the width of int, but for m_content_length and the sums of
-- du_scratch.cpp: positions stay below the buffers' sizes, and a heap with 2 ^ 31 timers is not
-- considered. The file system, recv, writev and epoll are the kernel's: their results are arguments,
-- and the calls on the epoll descriptor are logged. A turn of the main loop or of a worker does not
-- overlap another one, so that the races on m_user_count and on a connection that is closed while it
-- is processed are not seen. How much send takes is not looked at in reflect_tcp_udp.cpp, nor in the
-- model; stat of du_scratch.cpp is taken to succeed; the bytes on the pipe of
-- unified_event_source.cpp, whose handler is never installed, are given. Sockets' set-up, the
-- demonstrations of single system calls and the copies of parts of libevent and of Linux are left out.
pub mod Prelude
pub mod CString
pub mod TimeHeap
pub mod ThreadPool
pub mod HttpParse
pub mod HttpConn
pub mod ProcessPool
pub mod Links
pub mod TimerList
pub mod TimeWheel
pub mod WebServer
pub mod ChatRoom
pub mod CgiServer
pub mod IdleConns
pub mod MemCopy
pub mod Tail
pub mod EpollModes
pub mod UnifiedEvents
pub mod Connect
pub mod Du
pub mod WritevResponse
pub mod Echo
pub mod ChatClient
