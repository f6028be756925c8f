-- ===== src/Inventory.antt =====
-- CInventory (게임서버/컨텐츠/클래스/Inventory.h and Inventory.cpp). Bag and Change have what it does
-- to one inventory, Whole has the moneys and the five inventories together.
pub mod Bag
pub mod Change
pub mod Whole
pub mod Free
pub mod Sound
pub mod Freed
pub mod Quantity
pub mod Fill
pub mod Add
pub mod Partial
pub mod Remove
pub mod Money
mod Tests
