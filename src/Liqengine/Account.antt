-- ===== src/Liqengine/Account.antt =====
-- The data of the liquidation engine: `Action` of model/api-liquidation.go, the fields that it reads
-- of `ProfileCache`, `PositionData` and `MarketData` of model/response.go, and `AccountData` of
-- liqengine/Account.go. A pointer is an `Option`, and nil is `none`; a market that is missing from
-- the map is a nil pointer as well.
use Prim.Native.String.{String}
use text.Mathlib.Text.{◌==◌ as str_eq}
use rabbit_dex_backend.Common.{
  ℕ, ◌≡◌, refl, ap, Bool, true, false, Option, none, some, List, [], ◌∷◌, if◌then◌else◌,
}

pub data ActionType : Type 0 where
  place_sell_orders ins_takeover ins_clawback : ActionType

pub record Action (D : Type 0) : Type 0 where
  pub kind : ActionType
  pub trader_id : ℕ
  pub market_id : String
  pub size : D
  pub price : D

pub record ProfileCache (D : Type 0) : Type 0 where
  pub profile_id : ℕ
  pub profile_type : Option String
  pub status : Option String
  pub account_margin : Option D
  pub account_equity : Option D
  pub total_notional : Option D
  pub last_liq_check : Option ℕ

pub record PositionData (D : Type 0) : Type 0 where
  pub market_id : String
  pub profile_id : ℕ
  pub size : D
  pub side : String
  pub entry_price : D
  pub fair_price : Option D

pub record MarketData (D : Type 0) : Type 0 where
  pub min_tick : Option D
  pub min_order : Option D
  pub best_bid : Option D
  pub best_ask : Option D
  pub fair_price : Option D
  pub average_daily_volume_q : Option D

-- What the engine reads through the pointers of a profile's cache, and of a market's data.
pub record Profile (D : Type 0) : Type 0 where
  pub cache : ProfileCache D
  pub profile_id : ℕ
  pub profile_type : String
  pub status : String
  pub account_margin : D
  pub last_liq_check : ℕ

pub record Market (D : Type 0) : Type 0 where
  pub min_tick : D
  pub min_order : D
  pub best_bid : D
  pub best_ask : D
  pub fair_price : D
  pub average_daily_volume_q : D

-- The outcome of reading: a nil pointer, where Go panics, a `continue` of the loop, or a value.
pub data Reading (A : Type 0) : Type 0 where
  nil_pointer skipped : Reading A
  reading : A → Reading A

-- To go on with the value of a pointer.
abbrev pub deref : {A B : Type 0} → Option A → (A → Reading B) → Reading B
deref none f = nil_pointer
deref (some x) f = f x

pub deref-reading :
    {A B : Type 0} (o : Option A) (f : A → Reading B) (y : B)
    → deref o f ≡ reading y
    → (x : A) × (o ≡ some x) × (f x ≡ reading y)
deref-reading none f y h = absurd (let e = h in cc)
deref-reading (some x) f y h = (x, refl, h)

pub if-reading :
    {A : Type 0} (b : Bool) (r : Reading A) (y : A)
    → (if b then skipped else r) ≡ reading y
    → (b ≡ false) × (r ≡ reading y)
if-reading true r y h = absurd (let e = h in cc)
if-reading false r y h = (refl, h)

pub reading-injective : {A : Type 0} {x y : A} → reading x ≡ reading y → x ≡ y
reading-injective {x} h = ap (λ r. elim r [ nil_pointer ↦ x | skipped ↦ x | reading z ↦ z ]) h

pub record AccountData (D : Type 0) : Type 0 where
  pub cache : ProfileCache D
  pub positions : List (PositionData D)
  pub markets : List (String × MarketData D)

-- `account.Markets[id]`
unfoldable pub market_of :
    {D : Type 0} → String → List (String × MarketData D) → Option (MarketData D)
market_of id [] = none
market_of id ((name, market) ∷ markets) =
    if str_eq name id then some market else market_of id markets

abbrev pub long : String
long = "long"

abbrev pub short : String
short = "short"

-- `FlipSide`
unfoldable pub flip_side : String → String
flip_side side = if str_eq side short then long else short
