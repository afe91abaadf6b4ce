-- ===== src/Lib.antt =====
-- Verification of dpmaster, a master server for games of the Quake 3 family (the C program in
-- src/). Game servers announce themselves with heartbeats; the master asks each for an
-- infoResponse and lists it; clients ask with getservers for the addresses of the servers of a
-- game. The modules below model the handlers of these messages and the tables that they share.
--
-- The parts, and where they are modelled:
--   * src/common.c: the hash and the comparison of addresses (Address), and the user hash tables
--     (Users), whose links are maps from the indices of users. Users.Chains refines them to lists.
--   * src/clients.c: the clients and the flood protection (Clients).
--   * src/games.c: the policy on games (Games: Game_DeclarePolicy, Game_IsAccepted), and the
--     game properties (Properties, with Properties.Lookups and Properties.Update).
--   * src/servers.c: the server list. Servers has the state, Sv_Remove, Sv_IsActive and
--     Sv_CheckTimeouts; Servers.Lookup has Sv_GetByAddr, Servers.Iterate has Sv_GetFirst and
--     Sv_GetNext, Servers.Addrmap the address mappings, Servers.Config the settings and Sv_Init,
--     and Servers.State the state file (Sv_SetStateFile, Sv_SaveState, Sv_LoadState).
--   * src/messages.c: Messages.Limiter (HeartbeatRateLimited), Messages.Infostring
--     (SearchInfostring), Messages.Heartbeat (BuildChallenge, SendGetInfo, HandleHeartbeat),
--     Messages.InfoResponse (HandleInfoResponse), Messages.Query, Messages.Packet and
--     Messages.GetServers (HandleGetServers: the request, the packets, the loop), and
--     Messages.Handle (HandleMessage, and the checks of src/dpmaster.c on a packet).
--   * src/dpmaster.c: CommandLine (Cmdline_Option and Sys_Cmdline_Option, with the tables in
--     CommandLine.Options, Sys_DeclareListenAddress of src/system.c, and Com_SetLogFilePath of
--     src/common.c),
--     CommandLine.Parse (ParseCommandLine), and Startup (UnsecureInit, SecureInit, and main up to
--     its loop; Startup.Run relates the states of the loop, with
--     Com_UpdateLogStatus of src/common.c).
--   * Prelude and Text have what the parts share: tests on numbers, lists with native indices,
--     C integers, and the functions of the C library on strings; Text.Print and Text.Scan have
--     the conversions of fprintf and sscanf that the state file needs, and fgets.
-- Messages.Handle.receive takes a packet through the checks to a handler; HandleHeartbeat and
-- HandleInfoResponse find the server by Sv_GetByAddr and write it back into the array;
-- HandleGetServers asks the flood protection, the policy, the properties and the iteration.
-- Startup.start takes the arguments through ParseCommandLine to the settings, and the state file
-- into the new server list, by Sv_GetByAddr too.
--
-- State is passed explicitly: each file's variables are a record, and a handler takes them to the
-- new ones and to what is sent. A C string is the list of its bytes before the '\0'. An `int` that
-- is an index or -1 is an optional index. Counters keep their wrap-around (% 2 ^ 32).
-- The times that a server keeps are integers, as a state file can give a negative one; the current
-- time is not negative. A result
-- `none` of a function that cannot fail in C stands for undefined behaviour, a division by zero
-- or a null pointer, or for a list of random numbers that is too short, as its comment says.
--
-- Loops over lists are structural. The others have a number of rounds: the binary search has the
-- length of the interval, which each round shortens; a chain has a round for each slot, the
-- most users that it can have; Sv_GetNext has one for each slot, and the loop of HandleGetServers
-- one more, which is enough, as the results say; Cl_AddClient has one for each slot.
-- ParseCommandLine has a round for each argument, as each takes one at least; fgets reads 511 bytes
-- at most, as the buffer has 512.
--
-- Parameters stand for what the operating system does: gethostbyname, inet_ntop and inet_pton
-- (AddressText), which of the initialisations succeed (System), which allocations do (Memory), and
-- what rand returns; and for what Game_DeclarePolicy and Game_UpdateProperties do with the stray
-- addresses that an attached parameter with others behind it leads to (Memory). Sending does not
-- change the tables, and saving the state changes the file only; addresses have the length of
-- their family.
--
-- Not modelled: the log and all printing, the help texts and the banner, which are output; the
-- sockets, the privileges and the daemon mode of src/system.c, and the calls of select and recvfrom
-- in the main loop, which are calls of the operating system.
pub mod Prelude
pub mod Text
pub mod Address
pub mod Users
pub mod Clients
pub mod Games
pub mod Properties
pub mod Servers
pub mod Messages
pub mod CommandLine
pub mod Startup
mod Tests
