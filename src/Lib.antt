-- ===== src/Lib.antt =====
-- The dpatch task runner (src/*.h and src/main.c), modelled and proved.
--
-- An agent keeps one arena (src/arena.h) from which every table is allocated once: a store of
-- queued tasks and a store of running processes (src/store.h), a stack of client sockets
-- (src/stack.h), and one token stream (src/protocol.h) through which messages go. A client builds a
-- token stream from its command line, frames it into a buffer and sends it; the agent reads the
-- stream back and sorts its tokens into arguments and variables.
--
-- Exec: undefined behaviour as a value. `fault` is an access outside an object; an operation that
--   returns is `ret`. Memory: byte buffers, little-endian `int`s and C strings over them.
-- Store: src/store.h, one function for each `store_` function, over items of any type. Store/Valid
--   has the invariant and the partial map that a store stands for; Push, Access, Remove and Reset
--   prove the operations against that map.
-- Stack: src/stack.h, one function for each `stack_` function. Stack/Laws, Remove, Order and Keep
--   prove them against the list of the items in use. `stack_reset` stands in Stack/Block, over the
--   bytes of the header and the items.
-- Arena: src/arena.h. A chain of pages is a list, `__arena_root` its head. Arena/Blocks says what a
--   grant is, Arena/Alloc proves it of `arena_alloc`, Arena/History of any history of requests and
--   writes, Arena/Init treats `arena_init` and the lock.
-- Protocol: src/protocol.h over byte buffers. Protocol/Wire is the format with no buffer,
--   Protocol/Encode, Decode and Parse prove the three directions, Protocol/RoundTrip and Deliver put
--   them in a row. `frame` is `protocol_send` up to its call of `socket_send`, Protocol/Send the whole
--   of it, and Protocol/Sent what goes over the socket. Protocol/Reply and Protocol/Request follow
--   messages of few tokens, Protocol/Sizes has the sizes of the buffers.
--
-- Ini: src/ini.h. The buffer is one list of bytes and its four areas are offsets into it; the handler
--   is a function on its data. Ini/Comment treats comment lines, Ini/Trim the copies, Ini/Scan, Entry
--   and Parsed a line that is an entry, Print, Owed and RoundTrip files of entries, Ini/Fuel the bound
--   on the lines.
-- Config: src/config.h, the command line and the settings. Config/Kinds says what an argument is,
--   Config/Rounds and Config/Collect what the loop over the arguments collects.
-- Client: src/client.h, `client_eval_cmds`. Client/Message is the stream it makes, and Client/Carried
--   takes a stream over a socket into the agent's cleared buffer, and Client/Deliver follows the
--   message of a command line to the agent's arguments.
-- Net: src/net.h, `socket_send` and `socket_read` over any `send` and `read`; Net/Transfer has the
--   theorems. Net/Connect is `connection_init` and `connection_close` over the answers of the system
--   calls, Net/Opened says when a connection is made.
-- Server: src/server.h, the queue of tasks and the running processes in their two stores. The system
--   calls that start a child are one argument, what they answer. Server/Load reads a task through the
--   parser of Ini. Server/Wait, Queue, Launch, Fetch and Write have the theorems, Server/Keep what all
--   of them leave as it is. The memory of a task is its own object: what runs over its buffer is a
--   fault.
-- Agent: src/server.h around the two stores, as one state with the list of what went out of it and
--   the lines of its log about packets, replies and sockets.
--   Agent/Respond is `server_send` and `server_respond`, Packet `server_eval_packet` with one function
--   for each case of its switch, Sockets the descriptor set, new clients and `server_cleanup`, Loops
--   the two loops of a round and the rounds, Start the way from `connection_init` into the loop. A
--   round takes a record of what the system answers in it; a descriptor that is read twice in a round
--   gets one answer. Answer and Answering follow the replies through a packet; Kept, Replies,
--   Evaluate, Serve, Rounds and Running the invariant through everything the agent does; Watch is
--   about the descriptor set, Quiet about rounds in which nothing happens, Incoming about new clients
--   and the end, Reply and Printed about a reply up to the client's output.
-- Client/Run: src/client.h, `send_cmd`, `poll_response`, `poll_watch` and `run_cmd`, with the lines
--   that are printed as data.
--   Client/Reply is a reply as it prints it, Client/Once a command of two words. Agent/Workspace is the
--   agent's side of `dpatch set FILE`, Agent/EndToEnd puts it between the client's two halves.
-- Log: src/log.h, the lines of the log on stdout and in a file. Log/Lines has the theorem.
-- Main: src/main.c, `main` and `finish` over all that the system answers. Main/Modes says what a
--   process can come to.
--
-- Not modelled: `print_help` and what else only prints, the debug lines of the agent's log, which the
-- Makefile's LOG_LEVEL compiles out, and its lines about tasks in the stores, their launch and their
-- end, the signal handlers, `store_free`, which only hands its block back, and the child's side of a
-- fork. `running` is never reset by the code, so the agent's loop goes on as long as there are answers
-- and never comes to `server_cleanup`, whose theorem is about any valid stack.
--
-- Pointers handed to a function are not NULL, so the NULL guards have no case. An `int` index is an
-- integer, a count or size a native number; where a `size_t` sum could wrap, the wrap is written out
-- and a hypothesis bounds it. Whether malloc grants memory is an argument of what calls it. Loops
-- recur on the rounds left or on the list they walk; where the rounds are not counted by the code, a
-- bound is given that the loop cannot reach: the bytes of a file for its lines (Ini/Fuel), the bytes
-- left for the calls of `send`, the arguments for those of the command line. Token values are the C
-- strings behind their pointers, so two tokens never share text.
pub mod Prelude
pub mod Exec
pub mod Memory
pub mod Store
pub mod Stack
pub mod Arena
pub mod Protocol
pub mod Ini
pub mod Config
pub mod Client
pub mod Net
pub mod Server
pub mod Agent
pub mod Log
pub mod Main
