-- ===== src/Slipstopper/Tests.antt =====
-- A small tree of conditional orders, and the theorems at it.
use Prim.Native.String.{String}
use rabbit_dex_backend.Common.{ℕ, ◌≡◌, refl, true, List, [], ◌∷◌, ◌++◌, ◌&&◌, arith, leb}
use rabbit_dex_backend.Slipstopper.{Price, Order, Tuple, lte, gte, range_search, on_price_update}
use rabbit_dex_backend.Slipstopper.Triggers.{
  orders_at, follows_rise, follows_fall, on_price_update-orders_at, range_search-lte,
}

leb_trans : (a b c : ℕ) → leb a b ≡ true → leb b c ≡ true → leb a c ≡ true
leb_trans a b c e e' = ground arith

instance abbrev whole_prices : Price ℕ
whole_prices = record { le = leb; le_trans = leb_trans }

abbrev order : ℕ → String → String → Order
order id type side = record {
  order_id = id;
  profile_id = 7;
  market_id = 1;
  order_type = type;
  side = side;
}

abbrev tuples : List (Tuple ℕ)
tuples =
    record { key = 90; values = order 1 "stop_loss" "long" ∷ order 2 "stop_loss" "short" ∷ [] }
    ∷ record { key = 100; values = order 3 "take_profit" "long" ∷ order 4 "stop_limit" "long" ∷ [] }
    ∷ record {
      key = 110;
      values = order 5 "take_profit" "long" ∷ order 6 "stop_market" "long" ∷ [];
    }
    ∷ []

on_price_update-orders_at_example :
    on_price_update tuples 100
    ≡ orders_at (λ key o. leb key 100 && follows_rise o) tuples
      ++ orders_at (λ key o. leb 100 key && follows_fall o) tuples
on_price_update-orders_at_example =
    on_price_update-orders_at tuples 100 ((refl, (refl, tt)), ((refl, tt), (tt, tt)))

range_search-lte_example : range_search tuples 95 105 ≡ lte (gte tuples 95) 105
range_search-lte_example =
    range_search-lte tuples 95 105 ((refl, (refl, tt)), ((refl, tt), (tt, tt)))
