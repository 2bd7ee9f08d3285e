-- ===== src/Lib.antt =====
-- ndmpd, a server for the Network Data Management Protocol: a model of its core and the theorems on
-- it.
--
-- The server reads messages of a client from a TCP connection (src/ndmpd_func.c), finds their
-- handlers in a table (src/ndmpd_table.c) and calls them. The handlers authenticate the client
-- (src/ndmpd_connect.c, with passwords stored in base64, src/ndmpd_base64.c) and run the data
-- server (src/ndmpd_data.c), which listens for or connects to a mover (src/ndmpd_mover.c) and then
-- writes a backup to it or reads a restore from it. Backups are tar archives made by tlm/.
--
-- Common holds the shared names: Booleans and comparisons on native numbers (Common.Tests), lists
-- (Common.Lists), and bytes with C's masks (Common.Bytes). Protocol holds the constants of
-- include/ndmp.h.
--
-- Base64 models src/ndmpd_base64.c. A text is the list of its bytes. The results tell a null
-- pointer, a write behind the allocated memory and a read behind the table `b64_data` apart; the
-- memory behind the table is a parameter.
--
-- TarHeader models the checksum of a tar header, `tlm_build_header_checksum` and
-- `tlm_vfy_tar_checksum` of tlm/tlm_lib.c, and `oct_atoi` of tlm/tlm_util.c. A header is the bytes
-- before the checksum field, the field, and those behind it.
--
-- Names models `match` and `trim_name` of tlm/tlm_util.c, `tlm_is_excluded` and `tlm_cat_path` of
-- tlm/tlm_lib.c and `ndmp_get_relative_path` of src/ndmpd_util.c. PATH_MAX is a parameter.
--
-- HandlerTable is the table of src/ndmpd_table.c. Dispatch models the look-ups, `ndmp_recv_msg` and
-- `ndmp_process_messages` of src/ndmpd_func.c. What the XDR stream decodes is the input, a list of
-- messages; what a handler does to the connection is a parameter. The loop is a recursion on the
-- messages in the stream's buffer, so that it needs no fuel.
--
-- Data models the data interface: its record holds the fields of `ndmpd_session_data_desc_t` and
-- `ndmpd_session_mover_desc_t` (include/ndmpd_session.h) that states and sockets depend on, with
-- the list of open descriptors and the effects that others see. Data.Sockets has the routines that
-- open, close and halt, of src/ndmpd_data.c, src/ndmpd_mover.c and src/ndmpd_callbacks.c, and the
-- functions that abort an operation, of src/ndmpd_tar_v3.c, Data.Handlers the handlers. Each takes
-- the answers of the system and of the other components as arguments. The handlers for version 4
-- differ only in the form of the addresses.
--
-- Hardlink models the queue of tlm/tlm_hardlink.c: a list, with `none` for a queue without memory.
--
-- Connect models the authentication of src/ndmpd_connect.c. The properties of the configuration and
-- MD5 are parameters.
--
-- DumpDates models src/ndmpd_dtime.c: the fields of a line (DumpDates.Fields), the dates
-- (DumpDates.Dates), the lines of the file (DumpDates.Lines) and the records, which
-- `ndmpd_get_dumptime` looks up and `putdumptime` changes (DumpDates.Table). A file is the list of
-- its bytes; `mktime`, `ctime`, BUFSIZ and the length of a path are parameters. The loops over a
-- file have one round more as fuel than the file has bytes, and each round takes a byte.
--
-- Buffers models the buffer between the two threads of a backup or a restore: tlm/tlm_buffers.c,
-- the routines of tlm/tlm_lib.c that give out its records, `get_write_buffer` of
-- tlm/tlm_backup_reader.c, `get_read_buffer` of tlm/tlm_restore_writer.c, and the other threads,
-- `ndmp_tar_writer_v3` and `ndmp_tar_reader_v3` of src/ndmpd_tar_v3.c. The threads are relations of
-- steps, which are taken in any order. The beginning of `tlm_get_read_buffer` is two steps, for the
-- reader may act between its two readings.
--
-- FileHistory models the buffers of src/ndmpd_fhistory.c, whose contents are sent to the client,
-- and the callbacks that fill them for directories and nodes (FileHistory.Callbacks).
--
-- Transfer models the loops of `ndmpd_remote_write` and `ndmpd_remote_read_v3` of
-- src/ndmpd_mover.c. The system's calls are parameters by the number of the round; the fuel is the
-- number of bytes to move, which is enough since each round moves one.
--
-- Selection models what src/ndmpd_tar_v3.c makes of the environment of a backup: the patterns of
-- FILES (`split_env`, Selection.Words and Selection.Joined) and of EMC_EFILE and EMC_EDIR
-- (`get_exc_env_v3`, Selection.Excludes), the level (`get_backup_level_v3`) with the records of
-- DumpDates, the tests `shouldskip` and `ischngd` on an object, with the patterns of Names, and
-- `mkrsp`, which names restored objects (Selection.Restore). MOD_GETENV is a parameter.
--
-- Properties models src/ndmpd_prop.c: the table of the properties and `ndmpd_load_prop`, which
-- reads lines with `fgets` of DumpDates.Lines and gives each to `setup`. The result tells a write
-- behind one of the arrays of `setup` and the use of a key without a NUL apart. Properties.Logins
-- joins the table to Connect, whose configuration it gives. The fuel is one round more than the
-- file has bytes.
--
-- Archive models the format of the archive: the records of include/tlm.h with the checksum of
-- TarHeader, what tlm/tlm_backup_reader.c puts out for a directory, a file, a link or a pipe
-- (Archive.Writer and Archive.Objects), and the loop `tar_getdir` of tlm/tlm_restore_writer.c that
-- reads it (Archive.Variables and Archive.Reader). An archive is the list of its bytes, whole
-- records each; the way through the buffers is the part of Buffers. The names of users and groups,
-- TLM_MAX_PATH_NAME, the size of a section, the room behind `acl_info`, the bytes that a buffer
-- held before and those of memory that is not cleared are parameters. The loop over the sections of
-- a file has as fuel one round more than the file has bytes. The loop of a restore has two rounds
-- for each byte and two more: a round takes a record or follows one that ended a volume. What a
-- restore does with an object is an action; whether it is wanted and under which name is decided
-- there.
--
-- Not modelled: addresses, ports and byte counters of the data server, the other callbacks of the
-- file history, the copying of the file of dump dates, the traversal of file systems, DAR and the
-- contents of access lists, the wait for data behind the end of an archive that is cut off, and
-- what a failed reply does to the connection; the XDR routines are generated, and snapshots,
-- signals and start-up are calls of the system.
pub mod Common
pub mod Protocol
pub mod Base64
pub mod TarHeader
pub mod Names
pub mod HandlerTable
pub mod Dispatch
pub mod Data
pub mod Hardlink
pub mod Connect
pub mod DumpDates
pub mod Buffers
pub mod FileHistory
pub mod Transfer
pub mod Selection
pub mod Properties
pub mod Archive
