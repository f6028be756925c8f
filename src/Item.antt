-- ===== src/Item.antt =====
-- st_Item (게임서버/컨텐츠/클래스/ItemManager.h). Texts are lists of bytes.
use game_server_client.Base.{ℕ, List}

pub record Item : Type 0 where
  pub category : ℕ
  pub kind : ℕ
  pub name : List ℕ
  pub item_id : ℕ
  pub description : List ℕ
  pub max_quantity : ℕ
  pub quantity : ℕ
  pub seq : ℕ

unfoldable pub set_quantity : Item → ℕ → Item
set_quantity it n = record it { quantity = n }
