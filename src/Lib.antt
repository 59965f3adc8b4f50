-- ===== src/Lib.antt =====
-- The VPN authentication server of server/src, vpn-authd, with its clients for Linux and for
-- Windows. It gives out WireGuard sessions over HTTP: a login checks a password, takes an address
-- from a pool, sets a peer on the interface and stores a row; a logout, or the reaper once the
-- session has expired, takes the three away again; a renewal moves the expiry. A client asks for
-- these, and builds its tunnel from the answer.
--
-- Base: the conditional, Boolean tests, lists, and C strings as lists of bytes.
-- Libc: strtol and atoi. External: what the server calls and the repository does not implement, as
-- records of operations (Inet, WgLib, External). Theorems that depend on how addresses are written
-- take InetLaws, the documented behaviour of inet_pton and inet_ntop on IPv4, as a hypothesis;
-- that an account logs in rests on PwhashLaws, that of libsodium's password hash.
-- IpPool, server/src/ip_pool.c: the bitmap of a pool of addresses. The module's mutex makes each
-- function one step. Bitmap has the laws of single bits, Shape what ip_pool_init establishes,
-- Allocation and Return the operations.
-- Db, server/src/db.c: the statements over the tables of accounts, sessions and audit rows. The
-- argument `Run` says how far SQLite gets, so that each statement may fail. Init has db_init.
-- RateLimit, server/src/api_handlers.c: the table of failed logins.
-- Auth, server/src/auth.c. WgCtl, server/src/wg_ctl.c, with the parser of the interface's file in
-- StaticConfig, whose blocks are counted where calloc may fail. Config, server/src/config.c and
-- config.h: the parser of authd.conf, over the bytes of the file as fgets cuts them into lines.
-- Server: the state that the handlers share, and what one request meets (`Calls`: each clock
-- reading, each statement's fate and the random bytes).
-- Api, server/src/api_handlers.c: the handlers. Login, Logout, Renew and Status have one each, cut
-- at their early returns; Router has api_router, Connections the bodies that
-- it keeps for overlapping connections, and Listener api_start. A reply is a status with
-- the fields of its JSON object, a closed connection, or a fault, which is a read through a null
-- pointer.
-- Reaper, server/src/reaper.c: a pass over the list of expired sessions.
-- Leases: the invariant that joins the pool and the table of sessions, and its steps.
-- Daemon, server/src/main.c: the start (Host has it from the files, tables and interfaces that it
-- meets), and the states that requests alone bring a started daemon to. Daemon.Threads has the two threads beside each other: no lock is held over a handler or
-- over a pass of the reaper, so a move is one call of the reaper, or one call that a handler
-- makes, with any arguments and in any order. Daemon.Life goes on to the signal and the order of
-- the shutdown, with what the two threads do meanwhile.
-- AddUser, server/src/add_user.c: vpn-add-user, with its account at the server in Login.
-- Client, client/src, the command-line client: Api has client_api.c, Tunnel client_wg.c and Main
-- main.c. What it calls is in two records, Http (libcurl and cJSON, over the network) and Machine
-- (the WireGuard library, the resolver and the shell). The network is a type of its own, and the
-- state of a server is one instance of it: the login of client and server are joined so.
-- Windows, windows/client, the library of the client for Windows: WinHttp has win_http.cpp, over
-- the calls of WinHTTP (WinHttpLib), and Dll authwg.cpp, over the files and processes of the
-- machine (WinMachine).
-- Tests: runs at concrete values.
--
-- Bounds: the probing loops of the rate limiter have eight rounds, as in the source, and the search
-- of ip_pool_allocate has as many as the pool has usable addresses; the loop of PostJson over a
-- body, which need not end where reads fail, runs on rounds that the caller gives, and where they
-- are used up the model has no response. Numbers are natural; the hash of the rate limiter and the size of the pool wrap at 2^32 as written, while
-- times and ids, which are 64-bit and 32-bit in the source, are taken not to wrap.
--
-- Not modelled: the user interface for Windows (windows-ui); logging and what the programs print;
-- the client's early end by a signal in the midst of save_token or client_wg_up (Client.Main has
-- it before and after each); that the leases stay exclusive while both threads of the server run,
-- which the program does not ensure; the transport and TLS of libmicrohttpd, libcurl and WinHTTP; and the copies of
-- embeddable-wg-library and cJSON, which are other projects'.
pub mod Base
pub mod Libc
pub mod External
pub mod IpPool
pub mod Db
pub mod RateLimit
pub mod Config
pub mod Leases
pub mod Auth
pub mod Server
pub mod Api
pub mod WgCtl
pub mod Reaper
pub mod Daemon
pub mod AddUser
pub mod Client
pub mod Windows
pub mod Tests
