-- ===== src/Lib.antt =====
-- Pingu, the peer-to-peer file sharing program under pingu/. Hosts know each other by UDP packets:
-- they ping, answer pings with the servers that they know, pass queries for file names on, and
-- answer queries with the files that match.
--
-- The parts, with the files that model them:
-- - Host: the byte order of a machine, the loads and stores through cast pointers, htons.
-- - Glib: GSList and GTree, which the program only calls, as interfaces with their documented
--   laws, and in Glib/Model and Request/Model a list and a sorted association list that meet
--   these.
-- - Packet: pingu/protocol.h and fillin_packet, send_packet, read_packet and incoming of
--   pingu/socket.c. Bytes are numbers below 256; a read or a copy past the end of a block is a
--   fault, as are NULL and negative sizes (Base/Results).
-- - Request: pingu/request_handler.c. The tree, the request objects, which of them were freed and
--   the callbacks that ran are one state; the lock makes each function one step.
-- - Net: the table of servers of pingu/socket.c. The servlets on the heap, the known and the
--   possible servers, the window's list, the jobs of the thread pool and the datagrams handed to
--   sendto are one state. Net/Reach orders the handlers in any way, with a step for each.
--   Net/Threads and Net/Serial let the calls of check_add_server on many threads interleave under
--   their lock, and Net/Race those of add_upstream_server, which takes none. Net/Answered and
--   Net/Restarts follow a server that answers its pings and one that does not, and Net/Shutdown is
--   the end of the program.
-- - Search: pingu/filesearch.c and set_destination_ip. It uses Packet for the messages, Net for
--   sending, and Request for the windows that wait for answers. Search/Hops follows a query over
--   hosts of any byte orders, each of which reads what the one before sent. The size of a file has
--   no bound in the model; what is sent of it is its low 32 bits.
-- - ListModel: pingu/model_gslist.c, the rows of a window. Net and Search keep the list itself
--   where the code holds it through a model. ListModel/Interface is the table of functions that
--   GTK calls, and ListModel/Gobject the registration of the type; GObject's type system is an
--   interface.
-- - Columns: the texts of the rows, get_reply_column of pingu/filesearch.c and of pingu/gui.c, and
--   fillin_host_string of pingu/socket.c; what printf's %i and inet_ntop write is in
--   Columns/Decimal and Columns.
-- - Download: pingu/download.c, the request for a file, the answer to it, what the asker makes of
--   this, the loops that carry the file, and in Download/Jobs the two jobs around them. What the
--   system calls return is an argument, and the sockets and files are logged.
-- - FileDb: pingu/file_db.c, the scan of the shared directory and the text of an MD5 sum. The file
--   system is a finite tree of what readdir, stat, opendir and fopen answer, and md5_stream is a
--   parameter.
-- - Dispatch: apply_packet of pingu/socket.c, the switch over the operations of the protocol, on
--   the joint state of Request, Net, Search and Download and the database of FileDb. Receive,
--   Switch and Rows are the lemmas from which Greeting, Found and Fetched compose whole exchanges
--   between two hosts, and Delivered joins Fetched with the jobs and with the scan.
-- - Window: of pingu/gui.c and pingu/filesearch.c, the pages of the searches. GTK's notebook is an
--   interface, which the list in Window/Model meets.
-- - Program: main, the set-up of the socket and the callbacks of pingu/gui.c and pingu/socket.c.
--   The state of all parts is one, and whatever happens to the program is an event on it, in any
--   order. The callbacks that a sweep ran change the labels of the searches (show_timeouts).
-- - Examples and Trials below each part that has results: runs on concrete states.
--
-- Functions keep the program's names; a helper stands for a loop body or a group of statements. A
-- structure is a record, an address of the heap is a number, and a callback is a constructor. Words
-- of w bits wrap at 2 ^ w where the code stores them. Times are what time(NULL) returned, and are
-- arguments. No definition of the program's code needs fuel: each loop runs over a list or a tree.
-- A view's walk over the rows (ListModel/Walk) takes fuel, and the number of rows that the model
-- reports is enough. The digits of a number take fuel: ten are enough for 32 bits.
--
-- Not modelled: the layout of the windows and the dialogs (the rest of pingu/gui.c), the copies of
-- GNU's MD5 (pingu/md5.c), the printing, and the creation of the thread pools. A failing sendto is
-- ignored by the code and so leaves no trace here. But for Net/Threads and Net/Race, a handler that
-- other threads interrupt between two of its locks is one step.

pub mod Base
pub mod Columns
pub mod Dispatch
pub mod Download
pub mod FileDb
pub mod Glib
pub mod Host
pub mod ListModel
pub mod Net
pub mod Packet
pub mod Program
pub mod Request
pub mod Search
pub mod Window
