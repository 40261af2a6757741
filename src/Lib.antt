-- ===== src/Lib.antt =====
-- rds95, a software RDS encoder: the generation of groups, their checkwords, the settings behind
-- them, and the ways out to the modulator and to clients.
--
-- The program keeps, for each of three programmes, settings (`RDSData`) and the place of the
-- transmission in them (`RDSState`). The setters of src/rds_setters.c store texts in the settings
-- and mark them as new; the generators of src/rds_groups.c take new texts over and make one group
-- at a time; src/rds.c chooses the kind of the next group, calls the Lua hooks, adds the programme
-- fields and the checkwords; src/ipc_client.c codes the bits differentially and sends them.
--
-- Files:
-- - Common, Common/*: tests on numbers, lists as C arrays, the bitwise operators digit by digit at
--   every width, and evaluation over small ranges.
-- - Model, Model/Char (src/rds.h): the structures. `settings` and `state` of `RdsEncoder` are the
--   source's `data` and `state`; `word` of `RdsEon` is its `data`. A field of w bits is a number, and
--   every assignment writes its wrap-around out. A `char` is its byte; `promote` is its promotion
--   to `int`, for both kinds of platform.
-- - Setters, Setters/* (src/rds_setters.c): one function for each setter, on the settings and the
--   state of a programme (`ps_setter`) and on the encoder (`set_rds_ps`).
-- - Lua (src/lua_rds.c): the loops that call hooks, over an abstract interpreter of which nothing is
--   assumed. A hook may change the encoder in any way.
-- - Af, Af/* (src/rds_groups.c, src/lib.c): the lists of alternative frequencies: `get_next_af`,
--   `get_next_af_eon` and `add_rds_af`.
-- - Groups, Groups/* (src/rds_groups.c): one function for each kind of group, on the settings and the
--   state of the programme on the air. Those that call a hook are functions on the encoder together
--   with the interpreter.
-- - Sequence (src/rds.c): `check_rds_good_group`, `get_rds_sequence_group`, `get_rds_group`.
-- - Reset (src/rds.c): `reset_rds_state`, `set_rds_defaults`.
-- - Checkword, Checkword/* (src/rds.c): `add_checkwords`, with the receiver's division by the
--   generator polynomial as its specification.
-- - Ipc, Ipc/* (src/ipc_client.c): the messages to the modulator and the reading of its answers.
-- - Delivery (src/rds_setters.c, src/rds_groups.c, src/rds.c): the setters and the reset together with
--   the groups that follow.
-- - Charset, Charset/* (src/lib.c): `convert_to_rdscharset`. The text is the memory from its first
--   character on, with its NUL and what lies behind it. `Charset/Repertoire` is the table of RDS
--   characters in UTF-8.
-- - Crc, Crc/* (src/lib.c): `crc16_ccitt`, with the division by its polynomial as its specification.
-- - Store, Store/* (src/fs.c, src/rds.c): the encoder file and `init_rds_encoder`, over the layout that
--   the compiler gives the structures and the answers of the file system.
-- - Api, Api/* (src/lua_api.c, src/lua_api.h): the functions that scripts call. A function takes what the
--   Lua library makes of its arguments, `none` where that raises an error, and gives a result or an
--   error with the encoder and `writing_program` (`Action`). Fields is the table `RDS`, Text the setters
--   of texts and lists, Userdata, Programs, Buffers and Eon what their names say, Hooks the functions
--   that run hooks or the file. Calls lists the functions that change something; Steps, Valid, Preserve,
--   Invariant and Runs follow what they keep, Frame and Locality which part of the encoder they touch,
--   and Delivered a text from the script to the air.
-- - Tcp, Tcp/* (src/tcp_server.c): the table of clients, with the answers of the socket calls as
--   arguments and the descriptors that are closed as a list.
-- - Rds95, Rds95/* (src/rds95.c, src/rds.c): the deadlines, the configuration, `get_rds_bits`, and the
--   loops that print groups and send them to the modulator.
-- - Searcher (src/lua_rds.c): the path of a Lua module.
-- - Udp (src/udp_server.c, src/lua_rds.c): `run_lua` and the datagrams around it.
-- - Lua/Keeps, Groups/Progress, Sequence/Keeps: what a property of the encoder needs for every group to
--   keep it; Sequence/Cycle: the group sequence as a cycle.
-- - System, System/* (src/rds95.c, src/rds.c, src/udp_server.c, src/fs.c): starts, groups, datagrams, saves
--   and the calls of scripts as steps in any order.
-- - Main, Main/* (src/rds95.c, src/lua_rds.c): the command line and `main`, over a record of what the
--   libraries and the system answer.
-- - Lua/Names (src/lua_rds.c): the names under which scripts find the functions of src/lua_api.c.
-- - Tests, Tests/*: runs of the definitions, and each theorem with hypotheses at an input.
--
-- Bounds and fuel. `count_segments` has fuel for 16 rounds, enough for 64 characters in steps of
-- four. `while (1)` of `get_rds_eon_group` has fuel for two rounds: the second starts at variant 0
-- and ends the loop. A frequency (`float`) is a number of units of 2^-17, which every float from 64 on
-- is; its products are rounded half to even. `carry` divides with as many rounds as the quotient, and
-- `ascii_round` has one for each of the at most seven streams. Every other loop recurs on its list or on
-- the rounds left.
--
-- Not modelled: the Lua library and the scripts, the calls of the system on sockets, files and the
-- clock (what they answer is an argument), the scheduling of the threads (the datagrams of the UDP
-- thread stand between the rounds of the main loop and before the save), signal handlers,
-- messages, and undefined behaviour: a read past an array gives a default (zero, or the parameter
-- `stray` for the array of networks), and a write past one changes nothing. Where `main` joins a
-- thread that was not created the result is `none`, and `lua_set_rds_eon` and `lua_get_rds_eon`
-- are defined for an index that is not negative only. Of the lock of the interpreter it is
-- modelled that a hook is skipped while it is held, and not that `lua_group` and `run_lua` wait
-- for it.
mod Common
pub mod Model
pub mod Setters
pub mod Lua
pub mod Af
pub mod Groups
pub mod Sequence
pub mod Reset
pub mod Delivery
pub mod Charset
pub mod Crc
pub mod Store
pub mod Api
pub mod Checkword
pub mod Ipc
pub mod Tcp
pub mod Searcher
pub mod Udp
pub mod Rds95
pub mod System
pub mod Main
mod Tests
