-- ===== src/Slipstopper.antt =====
-- slipstopper/avl_tree.go and slipstopper/matcher.go: the searches over the tree of conditional
-- orders, and the orders that a price update executes. The tree is a package's (gods): here is the
-- list that its iterator gives. A price is a value of the interface `Price`.
pub mod Triggers
pub mod Tests
use Prim.Native.String.{String}
use text.Mathlib.Text.{◌==◌ as str_eq}
use rabbit_dex_backend.Common.{
  ℕ, ◌≡◌, Bool, true, false, ◌&&◌, ◌||◌, List, [], ◌∷◌, ◌++◌, if◌then◌else◌,
}

-- `Cmp` of decimals: `le a b` is that `a.Cmp(b)` is not positive.
pub record Price (D : Type 0) : Type 0 where
  pub le : D → D → Bool
  pub le_trans : (a b c : D) → le a b ≡ true → le b c ≡ true → le a c ≡ true

pub record Order : Type 0 where
  pub order_id : ℕ
  pub profile_id : ℕ
  pub market_id : ℕ
  pub order_type : String
  pub side : String

pub record Tuple (D : Type 0) : Type 0 where
  pub key : D
  pub values : List Order

-- The two conditions of `OnPriceUpdate`, for the orders at or below the price and for those at or
-- above it.
unfoldable pub executes_lte : Order → Bool
executes_lte o =
    str_eq o.order_type "stop_loss" && str_eq o.side "long"
    || str_eq o.order_type "stop_loss_limit" && str_eq o.side "long"
    || str_eq o.order_type "take_profit" && str_eq o.side "short"
    || str_eq o.order_type "take_profit_limit" && str_eq o.side "short"
    || str_eq o.order_type "stop_limit" && str_eq o.side "long"
    || str_eq o.order_type "stop_market" && str_eq o.side "long"

unfoldable pub executes_gte : Order → Bool
executes_gte o =
    str_eq o.order_type "stop_loss" && str_eq o.side "short"
    || str_eq o.order_type "stop_loss_limit" && str_eq o.side "short"
    || str_eq o.order_type "take_profit" && str_eq o.side "long"
    || str_eq o.order_type "take_profit_limit" && str_eq o.side "long"
    || str_eq o.order_type "stop_limit" && str_eq o.side "short"
    || str_eq o.order_type "stop_market" && str_eq o.side "short"

-- The calls of `OrderExecute` for the orders of a tuple, and of a list of tuples.
unfoldable pub execute_values : (Order → Bool) → List Order → List Order
execute_values executes [] = []
execute_values executes (o ∷ values) =
    let rest = execute_values executes values in if executes o then o ∷ rest else rest

module _ {D : Type 0} where
  unfoldable pub execute_orders : (Order → Bool) → List (Tuple D) → List Order
  execute_orders executes [] = []
  execute_orders executes (item ∷ orders) =
      execute_values executes item.values ++ execute_orders executes orders

module _ {D : Type 0} ⦃pr : Price D⦄ where
  open pr use {le}

  -- `LTE`, which ends at the first key beyond the price.
  unfoldable pub lte : List (Tuple D) → D → List (Tuple D)
  lte [] key1 = []
  lte (item ∷ tuples) key1 =
      let rest = lte tuples key1 in if le item.key key1 then item ∷ rest else []

  unfoldable pub gte : List (Tuple D) → D → List (Tuple D)
  gte [] key1 = []
  gte (item ∷ tuples) key1 =
      let rest = gte tuples key1 in if le key1 item.key then item ∷ rest else rest

  unfoldable pub range_search : List (Tuple D) → D → D → List (Tuple D)
  range_search [] key1 key2 = []
  range_search (item ∷ tuples) key1 key2 =
      let rest = range_search tuples key1 key2 in
      if le key1 item.key && le item.key key2 then item ∷ rest else rest

  -- `OnPriceUpdate`: the orders that it asks Tarantool to execute.
  unfoldable pub on_price_update : List (Tuple D) → D → List Order
  on_price_update tuples price =
      execute_orders executes_lte (lte tuples price)
      ++ execute_orders executes_gte (gte tuples price)
