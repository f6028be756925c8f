-- ===== src/Lib.antt =====
-- The game server, the login server, the client and their shared library: the ring buffer that
-- carries every packet, the packets
-- themselves, and what a character owns and does with it.
--
-- The parts and how they interact. A session receives into a ring (라이브러리/SerialRingBuffer.h and
-- .cpp) and a packet has one as its body. A handler reads a packet with `>>` and GetData, changes
-- the user, asks the database to save that, and answers with a packet. The store
-- (게임서버/컨텐츠/클래스/StoreManager.cpp) and the items (ItemManager.cpp) change the user's inventory
-- (Inventory.cpp), moneys and stats (게임서버/컨텐츠/구조체/CharacterStats.cpp).
--
-- Files:
--   Base: the shared names. Base/Tests has Boolean tests, Base/Lists lists over the native
--     numbers, Base/Words the DWORD arithmetic, Base/Memory copies of runs of bytes.
--   Map: std::map with integer keys, in the order of the keys.
--   Buffer: SerialRingBuffer, a record of the allocation and the two pointers as offsets from
--     Header; one function for each member function. Buffer/Bounds has the invariant and the bytes
--     held, Buffer/Store, Buffer/Enqueue, Buffer/Grow and Buffer/Dequeue the operations,
--     Buffer/Cipher encode and decode, Buffer/Seal the header of
--     게임서버/네트워크/CWanServerRoom2.h with the cipher.
--   Packet: CPacket's `<<` and `>>` (Packet/Fields), its texts (Packet/Texts), and messages of
--     both (Packet/Parts).
--   Item, Inventory: st_Item and CInventory. Inventory/Bag and Inventory/Change have what it does
--     to one st_inventory, Inventory/Whole the moneys and the choice of an inventory; the other
--     children have the proofs, by what they are about.
--   Stats: CStats. User: st_User with what its handlers send, save and throw.
--   Store: CStoreManager. ItemManager: CItemManager.
--   Network: the sessions and rooms of 게임서버/네트워크. Network/Receive has NetworkMessageProc, with
--     Network/Prefix and Network/Wire on one packet, Network/Stream on the bytes of many, and
--     Network/Rounds on any bytes. Network/Sessions has what CWanServerRoom2.cpp does to a session,
--     each call by itself (its children: Locks, Alloc, Sends, Refused). Network/Threads
--     has the references of one session as atomic steps of several threads (its children: Moves,
--     Safety, Refused). Network/Rooms has CRoom2.cpp (its children: Places, Updates, Frames, Moves).
--     Network/Timers has the queues of CWanServerRoom2.cpp that wait for a time.
--   Lobby: the lobby of 게임서버/컨텐츠/클래스/필드/Lobby.cpp, over Redis (Redis, of which
--     Redis/Shelves is an instance with the times that keys expire). Lobby/Character has the row of a
--     character, Lobby/Requests and Lobby/Stay the handlers, and Lobby/Keys, Lobby/Steps,
--     Lobby/Passages (the lobby with its fields),
--     Lobby/Logins, Lobby/Takeover, Lobby/Waiting, Lobby/Entries and Lobby/Rows the proofs.
--   Database: the queues and threads of 게임서버/컨텐츠/클래스/DB.cpp (its children: Order, Overtaking,
--     Hidden). Config: the scanner of 라이브러리/TextPasing.cpp (its children: Skips, Entries, Ints).
--   Login: 로그인서버/컨텐츠/LoginServer.cpp; Login/Tokens goes on to the lobby.
--   Field: friends in 게임서버/컨텐츠/클래스/필드/CBaseField.cpp (its children: Friends, and Friendship with
--     the tasks of Redis). Moves: how a player comes, goes and
--     changes the channel there (its child: Channels). Tasks: the login status, the tasks and the
--     server status that the servers exchange through Redis (게임서버/컨텐츠/클래스/LobbyServer.cpp, enum/RedisTask.h).
--   Protocol: the messages of 게임서버/컨텐츠/전역함수/PacketInit.cpp as what they put into a packet,
--     and what 클라이언트/컨텐츠/GameClient.cpp reads of three of them.
--   Client: what 클라이언트/컨텐츠/GameClient.cpp keeps of its player. Client/Messages has its handlers,
--     Client/Requests its requests, and Client/Mirror follows the inventory of the server.
--   Texts: SplitString and CombineStrings (게임서버/컨텐츠/전역함수/StringUtilities.cpp) and the rows
--     of a table (라이브러리/CCsvParser.cpp).
--   The Tests children run the definitions and the theorems on concrete values.
--
-- Numbers. A DWORD is a native number, its arithmetic cut modulo 2 ^ 32; a byte is below 2 ^ 8. The
-- `int` sizes of the ring are natural numbers. The loop that fills new slots runs on fuel, one more
-- than the count to add: each full slot takes at least one of it, and Inventory/Fill shows that the
-- loop ends. NetworkMessageProc runs on fuel too: each round that goes on takes at least six bytes, so
-- that one round more than the bytes received is enough (Network/Rounds). The loop of the
-- lobby over the sessions that wait (`check_waiting`) runs on fuel, and Lobby/Waiting shows how many
-- rounds are enough: a round in which another server is faster looks at the same session again. The scanner of
-- Config has one round more than the bytes left, since each round that goes on takes one at least,
-- except at a slash that begins no comment: `skip_none` then answers `unfinished`. The digits of a number
-- (`to_string`) have 20 rounds, enough for 64 bits. All other loops are structural.
--
-- Errors are values: `none` is a missing key or an exception of `at`, `Answer` tells a value from
-- `nullopt` and from what the language leaves undefined, and `Outcome` tells an answer from an
-- exception that leaves a handler.
--
-- Not modelled: the pool, the reference counts and the critical sections of the ring; the files that
-- the item and store tables are read from (the tables are arguments); the text of queries; of the
-- network, Start and Stop, the completion port and the sockets, the timers of
-- the contents and ExecuteDeleteRoom; the calls of Redis and of the database (arguments and effects),
-- the network of the login server; of the client, the scenes, the login client and the
-- sockets.
pub mod Base
pub mod Buffer
pub mod Packet
pub mod Map
pub mod Redis
pub mod Lobby
pub mod Login
pub mod Config
pub mod Database
pub mod Item
pub mod Inventory
pub mod Stats
pub mod User
pub mod Store
pub mod ItemManager
pub mod Texts
pub mod Protocol
pub mod Network
pub mod Field
pub mod Tasks
pub mod Moves
pub mod Client
