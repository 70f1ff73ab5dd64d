-- ===== src/Execution/Orders.antt =====
-- paper_trading/execution/broker_interface.py and order_manager.py: orders, a broker, and the
-- orders that a manager follows.
--
-- An order object is shared with the broker, which may change its quantity and its status: a
-- broker returns the order as it left it. Times and the stop price, which nothing sets, are left
-- out.
pub mod Refinement
use quorrin.Base.{
  String, Bool, true, false, not, Option, none, some, List, [], ◌∷◌, ◌++◌, if◌then◌else◌, Float,
}
use text.Mathlib.Text.{◌==◌ as str_eq}
use quorrin.Base.Dict.{Dict, get, put, remove}

pub data OrderSide : Type 0 where
  buy sell unsupported : OrderSide

pub data OrderType : Type 0 where
  market limit : OrderType

-- "unknown" is what a broker answers for an order that it does not have
pub data OrderStatus : Type 0 where
  pending filled cancelled unknown : OrderStatus

pub record Order (F : Float) : Type 0 where
  pub asset : String
  pub side : OrderSide
  pub quantity : F.Value
  pub order_type : OrderType
  pub limit_price : Option F.Value
  pub sl : Option F.Value
  pub tp : Option F.Value
  pub order_id : String
  pub status : OrderStatus

-- `BrokerInterface`, over the state of a broker: what the order manager calls. An empty id
-- refuses the order.
pub record BrokerInterface (F : Float) (B : Type 0) : Type 0 where
  pub place_order : Order F → B → B × (Order F × String)
  pub place_filled_order : Order F → F.Value → B → B × (Order F × String)
  pub cancel_order : String → B → B × Bool
  pub get_order_status : String → B → OrderStatus

pub record OrderManager (F : Float) (B : Type 0) : Type 0 where
  pub broker : B
  pub pending_orders : Dict (Order F)
  pub filled_orders : List (Order F)
  pub cancelled_orders : List (Order F)

module _ (F : Float) where
  open F use {Value, lit, neg, add, sub, mul, div}

  abbrev pub with_status : OrderStatus → Order F → Order F
  with_status s o = record o { status = s }

  abbrev pub new_order :
      OrderType
      → String
      → OrderSide
      → F.Value
      → Option F.Value
      → Option F.Value
      → Option F.Value
      → Order F
  new_order type asset side quantity limit_price sl tp = record {
    asset = asset;
    side = side;
    quantity = quantity;
    order_type = type;
    limit_price = limit_price;
    sl = sl;
    tp = tp;
    order_id = "";
    status = pending;
  }

module _ (F : Float) {B : Type 0} where
  -- an order that a broker accepted or not goes to the pending ones
  abbrev pub follow : String → Order F → B → OrderManager F B → OrderManager F B
  follow id o b m = record m {
    broker = b;
    pending_orders = put id (record o { order_id = id }) m.pending_orders;
  }

  -- `place_order`, or `place_filled_order` where a price of the fill is given
  unfoldable pub place : BrokerInterface F B → Order F → Option F.Value → B → B × (Order F × String)
  place api o none b = api.place_order o b
  place api o (some price) b = api.place_filled_order o price b

  -- an order that is refused is not followed
  unfoldable pub follow_unless : Bool → String → Order F → B → OrderManager F B → OrderManager F B
  follow_unless true id o b m = record m { broker = b }
  follow_unless false id o b m = follow id o b m

  unfoldable pub submit_market_order :
      BrokerInterface F B
      → String
      → OrderSide
      → F.Value
      → Option F.Value
      → Option F.Value
      → Option F.Value
      → OrderManager F B
      → OrderManager F B × String
  unfolding place follow_unless
  submit_market_order api asset side quantity fill_price sl tp m =
      let (b, (o, id)) =
        place api (new_order F market asset side quantity none sl tp) fill_price m.broker in
      (follow_unless (str_eq id "") id o b m, id)

  -- a limit order is followed whether it is refused or not
  unfoldable pub submit_limit_order :
      BrokerInterface F B
      → String
      → OrderSide
      → F.Value
      → F.Value
      → OrderManager F B
      → OrderManager F B × String
  submit_limit_order api asset side quantity limit_price m =
      let (b, (o, id)) =
        api.place_order (new_order F limit asset side quantity (some limit_price) none none)
          m.broker in
      (follow id o b m, id)

  -- a pending order goes if the broker agrees; an id that is not pending does not reach it
  unfoldable pub cancelled_at :
      Option (Order F) → String → B → Bool → OrderManager F B → OrderManager F B × Bool
  cancelled_at none id b ok m = (m, false)
  cancelled_at (some o) id b false m = (record m { broker = b }, false)
  cancelled_at (some o) id b true m = (
    record m {
      broker = b;
      pending_orders = remove id m.pending_orders;
      cancelled_orders = m.cancelled_orders ++ with_status F cancelled o ∷ [];
    },
    true,
  )

  unfoldable pub cancel_order :
      BrokerInterface F B → String → OrderManager F B → OrderManager F B × Bool
  unfolding cancelled_at
  cancel_order api id m =
      let (b, ok) = api.cancel_order id m.broker in cancelled_at (get id m.pending_orders) id b ok m

  -- what the status of one pending order makes of the manager
  unfoldable pub check_order : OrderStatus → String → Order F → OrderManager F B → OrderManager F B
  check_order filled id o m = record m {
    filled_orders = m.filled_orders ++ with_status F filled o ∷ [];
    pending_orders = remove id m.pending_orders;
  }
  check_order cancelled id o m = record m {
    cancelled_orders = m.cancelled_orders ++ with_status F cancelled o ∷ [];
    pending_orders = remove id m.pending_orders;
  }
  check_order pending id o m = m
  check_order unknown id o m = m

  -- the loop over a copy of the pending orders; reading a status changes no broker
  unfoldable pub check_orders :
      BrokerInterface F B → Dict (Order F) → OrderManager F B → OrderManager F B
  unfolding check_order
  check_orders api [] m = m
  check_orders api ((id, o) ∷ rest) m =
      check_orders api rest (check_order (api.get_order_status id m.broker) id o m)

  unfoldable pub check_pending_orders : BrokerInterface F B → OrderManager F B → OrderManager F B
  unfolding check_orders
  check_pending_orders api m = check_orders api m.pending_orders m
