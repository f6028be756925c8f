-- ===== src/Protocol/Tests.antt =====
-- Messages of the lobby server in a fresh packet.
use game_server_client.Base.{◌≡◌, List, [], ◌∷◌, arith, some}
use game_server_client.Item.{Item}
use game_server_client.Inventory.Bag.{SlotUpdate, insert_inventory, delete_inventory}
use game_server_client.Buffer.{SerialRingBuffer, create, get_free_size}
use game_server_client.Buffer.Bounds.{IsValid, contents, create-IsValid}
use game_server_client.Packet.{number, dword, dword64, put_parts, width}
use game_server_client.Packet.Parts.{AreSendable, received, total_size}
use game_server_client.Protocol.{buy_store_item, get_buy_store_item, item_parts, slot_parts}
use game_server_client.Protocol.Agreement.{buy_store_item_arrives}

abbrev fresh : SerialRingBuffer
fresh = create 1000

fresh-IsValid : IsValid fresh
fresh-IsValid = (create-IsValid 1000 (omega arith)).0

fresh_empty : contents fresh ≡ []
fresh_empty = (create-IsValid 1000 (omega arith)).1

fresh_room : get_free_size fresh ≡ 994
fresh_room = (create-IsValid 1000 (omega arith)).2

abbrev potion : Item
potion = record {
  category = 1;
  kind = 1;
  name = 65 ∷ [];
  item_id = 334;
  description = [];
  max_quantity = 10;
  quantity = 1;
  seq = 0;
}

abbrev got : List SlotUpdate
got = record { kind = insert_inventory; item_id = 334; seq = 1; quantity = 10 } ∷ []

abbrev paid : List SlotUpdate
paid = record { kind = delete_inventory; item_id = 500; seq = 4; quantity = 0 } ∷ []

-- The maximum, the count and the slots, which end both messages.
slots-AreSendable : AreSendable (number dword 10 ∷ number dword64 1 ∷ slot_parts got)
unfolding slot_parts width
slots-AreSendable = (omega arith, (omega arith, (omega arith, (omega arith, tt))))

buy_store_item_arrives_example :
    let ps = buy_store_item 0 0 0 200 paid potion got in
    (r' : SerialRingBuffer) × (get_buy_store_item (put_parts fresh ps) ≡ some (r', received ps))
    × (contents r' ≡ [])
unfolding buy_store_item item_parts slot_parts total_size width
buy_store_item_arrives_example =
    buy_store_item_arrives fresh fresh-IsValid fresh_empty 0 0 200 paid potion got
      (
        omega arith,
        (
          omega arith,
          (
            omega arith,
            (
              omega arith,
              (
                omega arith,
                (
                  omega arith,
                  (
                    omega arith,
                    (
                      omega arith,
                      (
                        omega arith,
                        (
                          omega arith,
                          (
                            ((λ e. absurd (omega arith)), tt),
                            omega arith,
                            (tt, omega arith, slots-AreSendable),
                          ),
                        ),
                      ),
                    ),
                  ),
                ),
              ),
            ),
          ),
        ),
      )
      (omega (arith, fresh_room))
