-- ===== src/Lib.antt =====
-- Postman: models and proofs for the mail server of this repository.
--
-- The server reads commands from its sockets by an event loop and hands each line to an SMTP
-- dialogue, which keeps the sender, the recipients and the text of a mail. The parts and the
-- files that model them:
--
-- - SMTP dialogue, server/src/lib/smtp/state.c with server/include/smtp: Smtp/. Smtp/State has
--   `smtp_state` as the record SmtpState with the source's fields, Smtp/Command the functions
--   `pr_smtp_*_proc` and `pr_smtp_command_parse`, Smtp/Parse the functions `pr_smtp_command_*` and
--   `smtp_parse`. A result `none` is a failed assertion, or a read or write outside a string or an
--   array. Smtp/Regex names the patterns that `smtp_lib_init` compiles; regexec is a parameter,
--   with the laws that its manual and the patterns give in the record IsMatcher. Smtp/Recognise,
--   Smtp/Execute, Smtp/Invariant, Smtp/Session, Smtp/Mail and Smtp/Refused have the proofs, and
--   Smtp/Sample a concrete regexec for the examples.
-- - State machine of the dialogue, server/src/lib/smtp/generated: Smtp/Fsm, with the definition
--   file server/src/lib/smtp/smtp-states.def as the relation Transition in Smtp/Definition, and
--   what the machine's order of states implies in Smtp/Order.
-- - Event loop, server/src/lib/event_loop: EventLoop/. EventLoop/EventsQueue, EventLoop/Registered,
--   EventLoop/Occurred and EventLoop/Sockets are the four queues, under the source's function
--   names; functions that differ in the type of the event alone are one function of that type.
--   EventLoop/Lookup, EventLoop/Table, EventLoop/Refine and EventLoop/Replay relate the
--   registered events to a table by socket and type. EventLoop/Loop has `event_loop` and the
--   registering calls, EventLoop/Transfer the loops over recv and send, EventLoop/Poll
--   `pr_create_pollin_event` and `pr_create_pollout_event`, EventLoop/Pollfd `pr_create_pollfd`.
--   EventLoop/Bounds, EventLoop/Moves, EventLoop/Writes, EventLoop/Async,
--   EventLoop/Close, EventLoop/Accept, EventLoop/Order and EventLoop/Null have further proofs.
--   recv, send and accept are parameters with a state of the system that they change.
-- - Server, server/src/lib/server with server/include/server: Server and Server/. Server/Users,
--   Server/Timers and Server/Table are users_list.c, timers.c and table.c. Server/Handlers and
--   Server/Read have the handlers of server.c that the event loop calls, Server/Reply
--   `handler_smtp`, Server/Dispatch `el_run`, which calls the handlers, Server/Send `send_mail`,
--   with its loops over recipients in Server/Recipients and its headers in Server/Mail, and
--   Server/State what they share: server_config, the event loop and its timers, the memory, the
--   disk. Server/Steps joins the handlers to a relation on
--   that state. Server/Access, Server/Elapsed, Server/Group, Server/Grouped, Server/Delivery,
--   Server/Directories, Server/Letters, Server/Delivered, Server/Headers and Server/Lost are
--   about lists, tables and delivery, Server/Turn, Server/Turns, Server/Whole, Server/Lines,
--   Server/Alive, Server/Paired, Server/Keeps and Server/ReadKeeps about the handlers, Server/Quiet about
--   `el_run`.
-- - Mail directory, server/src/lib/maildir: Maildir and Maildir/. Maildir/Accounts has servers and
--   users, Maildir/Message the file of a mail. The calls of libc are the fields of the record
--   FileSystem over any state of the disk, and what is written on a stream reaches its file for
--   certain when the stream is closed; Maildir/Laws says what is relied on of them, Maildir/Written
--   has proofs, and Maildir/Sample a concrete disk for the examples.
-- - Client, client/src: Client and Client/. Client/Network has the lines on a socket, which is
--   its bytes in and out, Client/Strings and Client/Files the routines of util.c, Client/Letter
--   a mail's text and Client/Mailbox the rest of maildir.c, Client/Smtp smtp.c, with the codes
--   of smtp.h, Client/Handlers the handlers of context.c and the body of the loop that calls
--   them, as one step on one connection, Client/Context what they share, and Client/Connections
--   the loops of `start_thread` over the array of connections: `Round` is what pselect found,
--   and a handler ends with the connection kept or removed, or with a fault. A read and a
--   removal of a file are fields of MailFiles over any state of the disk. Client/Receive,
--   Client/Sending, Client/Chunks, Client/Readline, Client/Split, Client/Headers,
--   Client/Addresses and Client/Parsed are about lines and mails, Client/Replies, Client/Mail,
--   Client/Sends, Client/Commands, Client/Lines, Client/Transaction, Client/Removal,
--   Client/Greeting and Client/Classes about the dialogue, Client/Cells, Client/Overlaps and
--   Client/Rounds about the array of a thread, Client/Mutex about its mutex. It meets the
--   server in the mail directory: Client/Parsed reads what Server/Mail writes, and Client/Relay
--   takes it on to what is sent.
-- - Strings, server/src/lib/util.c: Text and Text/. A string is its bytes without the final zero.
-- - Vector, server/include/vector.h: Vector and Vector/. The array is the list of the elements in
--   use, with the number of cells that are allocated.
-- - Prelude/: tests on numbers, lists by native numbers, and searches in linked lists.
--
-- Numbers: sizes and lengths are natural numbers, which is what size_t is below its bound; a
-- socket is a signed integer. The loops over recv and send run on fuel one more than the size
-- of the buffer, which is enough, since each round but the last transfers a byte; the loop of
-- `handler_read` has the same fuel, which a theorem shows to be enough. In the client the loops
-- over the lines of a file have fuel one more than its bytes, since a line has a byte at least.
-- The loop over the connections of a thread has their number as its fuel, since a removal
-- leaves fewer and each round goes on to the next index.
--
-- Memory: the event queues, the event loop and the handlers' calls of it take what the next calls
-- of malloc return as an argument; elsewhere memory is always there.
--
-- Not modelled: mutexes and threads (a function or a handler is one step; of the client the
-- mutex of `is_contains` is kept), the thread pool, the turns between poll and `el_run`, what
-- is only logged, the check of the mail directory at the start, configuration, the protocol
-- context, and of the client the start of threads, signals, the sets of pselect, of which only
-- the emptying by a removal is kept, the resolver and the call that connects. What is freed is
-- left out in the client, but for the connections of a thread.
pub mod Prelude
pub mod Smtp
pub mod EventLoop
pub mod Vector
pub mod Text
pub mod Maildir
pub mod Server
pub mod Client
