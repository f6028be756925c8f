-- ===== src/Network.antt =====
-- The network of the game server (게임서버/네트워크/CWanServerRoom2.h and CWanServerRoom2.cpp, CRoom2.cpp,
-- Session.h).
pub mod Receive
pub mod Prefix
pub mod Wire
pub mod Stream
pub mod Rounds
pub mod Sessions
pub mod Threads
pub mod Rooms
pub mod Timers
mod Tests
