-- ===== src/Lib.antt =====
-- A verification library for three programs: the chat server for a local network (局域网聊天), the
-- streaming server for multicast groups (流媒体组播), both in C, and the dashboard of a car (MyCarUI), in
-- C++ with Qt.
--
-- The chat server runs a thread for each connection (局域网聊天/server.c, handle_client). The thread reads
-- messages from its socket (recv_message), and each request reads and changes text files (accounts,
-- friends, groups) and a list of the users that are online, and answers with messages on its own or on
-- other descriptors. The modules follow these parts:
--   Chat/Text      C strings, and the hash of passwords (server_tool.c).
--   Chat/Wire      the layout of messages (protocol.h), recv_full, recv_message, send_message; the same
--                  functions stand in client_tool.c. A socket is the list of pieces that `read` returns.
--   Chat/Disk      files as an association list of bytes by path, with fopen, fgets, fprintf and rename
--                  as the tools use them.
--   Chat/Accounts  user_exists, store_user and authenticate_user on users.txt.
--   Chat/Friends   is_friend, add_friend_both, remove_friend_both and load_friend_list.
--   Chat/Groups    group_exists, create_group, join_group, leave_group, is_in_group and load_group_list.
--   Chat/Online    find_online_fd, add_online and remove_online.
--   Chat/Kind, Chat/Resp  the constants of protocol.h.
--   Chat/Client    receive_messages of client.c: what the client prints and asks for at each message.
--                  Deliveries and Befriending follow messages from the server to the screen.
--   Chat/Client/Menu  main of client.c: the menus over the bytes that the user types, and the messages that
--                  are sent. Rounds, Actions and Ending are about its loops, and Heard about the server's
--                  side; Texting follows a line from one user's keyboard to another's screen.
--   Chat/Server    the state of the server and what it sends; in Requests and GroupRequests the cases of
--                  the switch of handle_client, in Session its loop. Messaging, Entering, Groupcast and
--                  Faults hold theorems on requests, and Racing is about two threads that register one name.
-- A result `none` of a request stands for a read or write outside a block of memory, never for an error
-- that the code handles.
--
-- The streaming server hands out tokens to its channels and runs jobs in a pool of threads:
--   Multicast/Queue  the ring of server/pool/queue/queue.c; Spec is the bounded list it implements.
--   Multicast/Pool   the pool of server/pool/pool.c: Worker, Admin and Caller have the actions of its threads,
--                    System runs them in any order. Invariant says what each thread relies on, and
--                    WorkerEffect, CallerEffect and Keeping that each action keeps it; Safety, Stopping,
--                    Alone, Ending and Shrinking hold the theorems. It uses Multicast/Queue for its tasks.
--   Multicast/Channels  the list of channels: send_chn_list of server/server.c writes it into a block of
--                    memory, and the loop of client/client.c reads it; layout of proto/proto.h.
--   Multicast/Mlib   the read of a channel's files, mlib_read_chn_data of server/mlib.c, with the kernel's
--                    `open` and `read` as parameters. Stream says in which order the files
--                    are handed out. Library is the table of channels: mlib_get_chn_list, __get_chn_info,
--                    and the read of a channel by its number, that Numbers is about.
--   Multicast/Tbf    the token buckets of server/tbf/tbf.c, with the time as an argument.
--   Multicast/Sender  a pass of chn_sender in server/server.c, with its loop that waits for tokens, which
--                    takes the times of its calls and the calls of other senders before each of them.
--   Multicast/Startup  the loop in main of server/server.c that gives each channel a bucket and a job.
--   Multicast/Player  what client/client.c does with a packet of a channel.
--   Multicast/Client  the loop in main of client/client.c over packets and lines that are typed, with its
--                    player; Watching is about a client that gets the list and chooses a channel.
--
-- The dashboard reads packets from the car's controller on a serial line. A worker thread
-- (MyCarUI/SerialWorker.cpp) collects the bytes and emits signals, and an object of the user interface's
-- thread (MyCarUI/SerialHandler.cpp) takes them from a queue and holds what is displayed:
--   Car/Frame        the loop of parseBuffer, one `round` for each pass, and calculateChecksum. Reference is
--                    a scan of the whole stream, byte by byte, that says which packets a stream holds;
--                    Rounds, Stream and Sending relate the loop, the scan and the sender's side.
--   Car/Worker       the worker's state, parsePacket and the slots (onReadyRead, startWork, stopWork,
--                    onErrorOccurred, requestWeatherData); Feeding and Delivery follow it over a stream.
--   Car/Handler      the handler's slots; Mirror runs worker and handler together.
--   Car/History      the list of trips (MyCarUI/HistoryDatabase.cpp), which is separate from these. Interface
--                    has its SQL statements, and the database as operations with the laws that the code relies
--                    on, where BEGIN and COMMIT may fail; Schema makes the table, Statistics adds up distances and times. Views, Changes, Syncing
--                    and Migration hold the theorems, and Tests/Shelf is a database that satisfies the laws.
--
-- Common holds what they share: lists and options over the native numbers, and C's signed numbers.
--
-- Bounds and fuel. `decimal` prints a number in at most 20 digits, which is enough for an unsigned long.
-- `handle_client` has a round of fuel for each message; one more than the bytes that the client sends
-- is enough, since each message takes at least a header, and so for `receive_messages`.
-- `mlib_read_chn_data` has a round for each file that it looks at; a round for each file and one more
-- are enough. `parse_buffer` has a round for each byte in the buffer and one more, and each round but the
-- last takes bytes off. The client's `main` has a round for each line that it reads: twice the bytes of
-- the input and two more are enough, since a line has a byte, and the end of the input ends two loops.
-- The pool's threads have no fuel: they make one action at a time. All other loops recur on their data.
--
-- Not modelled: what is only printed, the failure of malloc in the chat programs, other orders of the
-- threads of the chat server than those of Racing, the locks of the chat server and of the buckets,
-- sockets and processes of all programs, and of the dashboard the path of its database, other programs
-- that write to it, and the pages in QML. The slot onErrorOccurred is modelled for signals of the port that
-- is open: the read of a null m_serial, if it were called without one, is not. Of the pool, the signals of its conditions: a thread that
-- waits can go on whenever its mutex is free, as POSIX allows, so each order of wake-ups is among the
-- runs, and that a wake-up is lost does not show.
pub mod Common
pub mod Multicast
pub mod Chat
pub mod Car
