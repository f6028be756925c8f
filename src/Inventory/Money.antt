-- ===== src/Inventory/Money.antt =====
-- The moneys of CInventory (Inventory.cpp: getMoney, addMoney, subMoney, setMoney).
use game_server_client.Base.{
  ℕ, ◌-◌, ◌^◌, ◌≤◌, ◌<◌, ◌≡◌, ◌≢◌, refl, none, some, arith, ◌∙◌, if◌then◌else◌, ◌==◌, add32, sub32,
}
use game_server_client.Map.{find, assign, find-assign, find-insert}
use game_server_client.Inventory.Whole.{Inventory, get_money, add_money, sub_money, set_money}
use game_server_client.Inventory.Quantity.{ne→==_false}

module _ (inv : Inventory) (money held : ℕ) (there : get_money inv money ≡ some held) where
  -- subMoney of no more than the user has, which fits a DWORD, takes exactly that much, answers what
  -- is left, and leaves the other moneys and the inventories.
  pub sub_money_lem :
      (quantity : ℕ)
      → quantity ≤ held
      → held < 2 ^ 32
      → (inv' : Inventory) × (sub_money inv money quantity ≡ some (inv', held - quantity))
        × (get_money inv' money ≡ some (held - quantity))
        × (inv'.inventories ≡ inv.inventories)
        × ((j : ℕ) → j ≢ money → get_money inv' j ≡ get_money inv j)
  unfolding sub_money get_money
  sub_money_lem quantity enough small =
      let left : sub32 held quantity ≡ held - quantity = omega arith in
      (
        record inv { moneys = assign money (sub32 held quantity) inv.moneys },
        rw (there, left) refl,
        find-assign money money (sub32 held quantity) inv.moneys ∙ ground arith,
        refl,
        λ j ne.
            find-assign money j (sub32 held quantity) inv.moneys ∙ rw (ne→==_false j money ne) refl,
      )

  -- subMoney undoes addMoney of a money that the user has, also where the sum goes beyond a DWORD:
  -- for a quantity and a money that fit one.
  pub sub_money-add_money :
      (quantity : ℕ)
      → quantity < 2 ^ 32
      → held < 2 ^ 32
      → (inv1 inv2 : Inventory) × (final : ℕ) × (add_money inv money quantity ≡ some (inv1, final))
        × (sub_money inv1 money quantity ≡ some (inv2, held))
        × ((j : ℕ) → get_money inv2 j ≡ get_money inv j)
  unfolding add_money sub_money get_money
  sub_money-add_money quantity small held_small =
      let back : sub32 (add32 held quantity) quantity ≡ held = omega arith in
      let more : find money (assign money (add32 held quantity) inv.moneys)
          ≡ some (add32 held quantity) =
        find-assign money money (add32 held quantity) inv.moneys ∙ ground arith in
      (
        record inv { moneys = assign money (add32 held quantity) inv.moneys },
        record inv { moneys = assign money held (assign money (add32 held quantity) inv.moneys) },
        add32 held quantity,
        rw there refl,
        rw (more, back) refl,
        λ j.
            find-assign money j held (assign money (add32 held quantity) inv.moneys)
            ∙ ground (arith, find-assign money j (add32 held quantity) inv.moneys, there),
      )

-- setMoney sets a money that the user does not have, and changes none that the user has.
pub set_money_lem :
    (inv : Inventory) (money quantity j : ℕ)
    → get_money (set_money inv money quantity) j ≡ elim (get_money inv j) [
      | some q ↦ some q
      | none ↦ if j == money then some quantity else none
    ]
unfolding set_money get_money
set_money_lem inv money quantity j = ground (arith, find-insert money j quantity inv.moneys)
