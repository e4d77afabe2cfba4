-- ===== src/Slipstopper/Triggers.antt =====
-- Which orders a price update executes.
use text.Mathlib.Text.{◌==◌ as str_eq}
use rabbit_dex_backend.Common.{
  ◌≡◌, refl, sym, ap, ◌∙◌, Bool, true, false, ◌&&◌, ◌||◌, List, [], ◌∷◌, ◌++◌, if◌then◌else◌, arith,
  All, filter_by,
}
use rabbit_dex_backend.Slipstopper.{
  Price, Order, Tuple, executes_lte, executes_gte, execute_values, execute_orders, lte, gte,
  range_search, on_price_update,
}

-- A stop order, which follows the price, and one that takes a profit, which waits for it.
abbrev pub is_stop : Order → Bool
is_stop o =
    str_eq o.order_type "stop_loss"
    || str_eq o.order_type "stop_loss_limit"
    || str_eq o.order_type "stop_limit"
    || str_eq o.order_type "stop_market"

abbrev pub is_take : Order → Bool
is_take o = str_eq o.order_type "take_profit" || str_eq o.order_type "take_profit_limit"

abbrev pub buys : Order → Bool
buys o = str_eq o.side "long"

abbrev pub sells : Order → Bool
sells o = str_eq o.side "short"

-- The order is triggered by a price at or above its own, or by one at or below.
abbrev pub follows_rise : Order → Bool
follows_rise o = is_stop o && buys o || is_take o && sells o

abbrev pub follows_fall : Order → Bool
follows_fall o = is_stop o && sells o || is_take o && buys o

regroup :
    (a b c d e f x y : Bool)
    → (a && x || b && x || c && y || d && y || e && x || f && x)
      ≡ ((a || b || e || f) && x || (c || d) && y)
regroup a b c d e f x y = ground arith

rise : (o : Order) → executes_lte o ≡ follows_rise o
unfolding executes_lte
rise o =
    regroup (str_eq o.order_type "stop_loss") (str_eq o.order_type "stop_loss_limit")
      (str_eq o.order_type "take_profit") (str_eq o.order_type "take_profit_limit")
      (str_eq o.order_type "stop_limit") (str_eq o.order_type "stop_market") (str_eq o.side "long")
      (str_eq o.side "short")

fall : (o : Order) → executes_gte o ≡ follows_fall o
unfolding executes_gte
fall o =
    regroup (str_eq o.order_type "stop_loss") (str_eq o.order_type "stop_loss_limit")
      (str_eq o.order_type "take_profit") (str_eq o.order_type "take_profit_limit")
      (str_eq o.order_type "stop_limit") (str_eq o.order_type "stop_market") (str_eq o.side "short")
      (str_eq o.side "long")

execute_values-filter_by :
    (executes : Order → Bool) (values : List Order)
    → execute_values executes values ≡ filter_by executes values
unfolding execute_values
execute_values-filter_by executes [] = refl
execute_values-filter_by executes (o ∷ values) =
    ap (λ rest. if executes o then o ∷ rest else rest) (execute_values-filter_by executes values)

filter_by-same :
    (p q : Order → Bool)
    → ((o : Order) → p o ≡ q o)
    → (xs : List Order) → filter_by p xs ≡ filter_by q xs
filter_by-same p q same [] = refl
filter_by-same p q same (x ∷ xs) =
    ap (λ rest. if p x then x ∷ rest else rest) (filter_by-same p q same xs)
    ∙ ap (λ b. if b then x ∷ filter_by q xs else filter_by q xs) (same x)

filter_by-false : (xs : List Order) → filter_by (λ o. false) xs ≡ []
filter_by-false [] = refl
filter_by-false (x ∷ xs) = filter_by-false xs

module _ {D : Type 0} where
  -- The orders of the tuples that pass a test of the key and the order, in the order of the tuples.
  abbrev pub orders_at : (D → Order → Bool) → List (Tuple D) → List Order
  orders_at p [] = []
  orders_at p (item ∷ tuples) = filter_by (p item.key) item.values ++ orders_at p tuples

module _ {D : Type 0} ⦃pr : Price D⦄ where
  open pr use {le, le_trans}

  -- The keys do not descend.
  abbrev pub IsAscending : List (Tuple D) → Type 0
  IsAscending [] = Unit
  IsAscending (item ∷ tuples) =
      All (λ later. le item.key later.key ≡ true) tuples × IsAscending tuples

  -- Behind a key beyond the price there is no order at or below it.
  beyond :
      (f : Order → Bool) (price key : D)
      → le key price ≡ false
      → (tuples : List (Tuple D)) → All (λ later. le key later.key ≡ true) tuples
      → orders_at (λ k o. le k price && f o) tuples ≡ []
  beyond f price key out [] a = refl
  beyond f price key out (item ∷ tuples) a =
      go (le item.key price) refl (beyond f price key out tuples a.1)
    where
      go :
          (b : Bool)
          → le item.key price ≡ b
          → orders_at (λ k o. le k price && f o) tuples ≡ []
          → filter_by (λ o. b && f o) item.values ++ orders_at (λ k o. le k price && f o) tuples
            ≡ []
      go true e ih = absurd (let t = le_trans key item.key price a.0 e in let o = out in cc)
      go false e ih =
          ap (λ l. l ++ orders_at (λ k o. le k price && f o) tuples) (filter_by-false item.values)
          ∙ ih

  lte-orders_at :
      (executes f : Order → Bool) (price : D)
      → ((o : Order) → executes o ≡ f o)
      → (tuples : List (Tuple D)) → IsAscending tuples
      → execute_orders executes (lte tuples price) ≡ orders_at (λ k o. le k price && f o) tuples
  unfolding lte execute_orders
  lte-orders_at executes f price same [] a = refl
  lte-orders_at executes f price same (item ∷ tuples) a =
      go (le item.key price) refl (lte-orders_at executes f price same tuples a.1)
    where
      go :
          (b : Bool)
          → le item.key price ≡ b
          → execute_orders executes (lte tuples price) ≡ orders_at (λ k o. le k price && f o) tuples
          → execute_orders executes (if b then item ∷ lte tuples price else [])
            ≡ filter_by (λ o. b && f o) item.values ++ orders_at (λ k o. le k price && f o) tuples
      go true e ih =
          ap (λ l. execute_values executes item.values ++ l) ih
          ∙ ap (λ l. l ++ orders_at (λ k o. le k price && f o) tuples)
              (execute_values-filter_by executes item.values
                ∙ filter_by-same executes f same item.values)
      go false e ih = sym (
          ap (λ l. l ++ orders_at (λ k o. le k price && f o) tuples) (filter_by-false item.values)
          ∙ beyond f price item.key e tuples a.0)

  gte-orders_at :
      (executes f : Order → Bool) (price : D)
      → ((o : Order) → executes o ≡ f o)
      → (tuples : List (Tuple D))
      → execute_orders executes (gte tuples price) ≡ orders_at (λ k o. le price k && f o) tuples
  unfolding gte execute_orders
  gte-orders_at executes f price same [] = refl
  gte-orders_at executes f price same (item ∷ tuples) =
      go (le price item.key) (gte-orders_at executes f price same tuples)
    where
      go :
          (b : Bool)
          → execute_orders executes (gte tuples price) ≡ orders_at (λ k o. le price k && f o) tuples
          → execute_orders executes (if b then item ∷ gte tuples price else gte tuples price)
            ≡ filter_by (λ o. b && f o) item.values ++ orders_at (λ k o. le price k && f o) tuples
      go true ih =
          ap (λ l. execute_values executes item.values ++ l) ih
          ∙ ap (λ l. l ++ orders_at (λ k o. le price k && f o) tuples)
              (execute_values-filter_by executes item.values
                ∙ filter_by-same executes f same item.values)
      go false ih =
          ih
          ∙ sym (
              ap (λ l. l ++ orders_at (λ k o. le price k && f o) tuples)
                (filter_by-false item.values))

  -- Over a tree whose keys ascend, a price update executes exactly these orders: first those at or
  -- below the price that a rise triggers, then those at or above it that a fall triggers, each in
  -- the order of the keys and of their insertion. A rise triggers the stops that buy and the
  -- profits taken by selling; a fall those of the other sides.
  pub on_price_update-orders_at :
      (tuples : List (Tuple D)) (price : D)
      → IsAscending tuples
      → on_price_update tuples price
        ≡ orders_at (λ key o. le key price && follows_rise o) tuples
          ++ orders_at (λ key o. le price key && follows_fall o) tuples
  unfolding on_price_update
  on_price_update-orders_at tuples price a =
      ap (λ l. l ++ execute_orders executes_gte (gte tuples price))
        (lte-orders_at executes_lte follows_rise price rise tuples a)
      ∙ ap (λ l. orders_at (λ key o. le key price && follows_rise o) tuples ++ l)
          (gte-orders_at executes_gte follows_fall price fall tuples)

  range_search-beyond :
      (key1 key2 key : D)
      → le key key2 ≡ false
      → (tuples : List (Tuple D)) → All (λ later. le key later.key ≡ true) tuples
      → range_search tuples key1 key2 ≡ []
  unfolding range_search
  range_search-beyond key1 key2 key out [] a = refl
  range_search-beyond key1 key2 key out (item ∷ tuples) a =
      go (le key1 item.key) (le item.key key2) refl
        (range_search-beyond key1 key2 key out tuples a.1)
    where
      go :
          (b c : Bool)
          → le item.key key2 ≡ c
          → range_search tuples key1 key2 ≡ []
          → (if b && c then item ∷ range_search tuples key1 key2 else range_search tuples key1 key2)
            ≡ []
      go b true e ih = absurd (let t = le_trans key item.key key2 a.0 e in let o = out in cc)
      go true false e ih = ih
      go false false e ih = ih

  -- Over such a tree, the search of a range gives what `LTE` of its end keeps of `GTE` of its start.
  pub range_search-lte :
      (tuples : List (Tuple D)) (key1 key2 : D)
      → IsAscending tuples
      → range_search tuples key1 key2 ≡ lte (gte tuples key1) key2
  unfolding range_search lte gte
  range_search-lte [] key1 key2 a = refl
  range_search-lte (item ∷ tuples) key1 key2 a =
      go (le key1 item.key) (le item.key key2) refl (range_search-lte tuples key1 key2 a.1)
    where
      cut : Bool → List (Tuple D)
      cut c = if c then item ∷ lte (gte tuples key1) key2 else []

      range : Bool → List (Tuple D)
      range b = if b then item ∷ range_search tuples key1 key2 else range_search tuples key1 key2

      go :
          (b c : Bool)
          → le item.key key2 ≡ c
          → range_search tuples key1 key2 ≡ lte (gte tuples key1) key2
          → range (b && c) ≡ lte (if b then item ∷ gte tuples key1 else gte tuples key1) key2
      go false c e ih = ih
      go true true e ih = ap (λ l. item ∷ l) ih ∙ sym (ap cut e)
      go true false e ih = range_search-beyond key1 key2 item.key e tuples a.0 ∙ sym (ap cut e)
