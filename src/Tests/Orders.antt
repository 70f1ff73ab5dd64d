-- ===== src/Tests/Orders.antt =====
-- Orders, the windows of the pipeline, and the risk budget.
use quorrin.Base.{
  ℕ, ◌≡◌, ◌==◌, if◌then◌else◌, refl, true, false, none, some, inl, List, [], ◌∷◌, ◌++◌, last_n,
  arith,
}
use quorrin.Base.Fixed.{fixed}
use quorrin.Base.Dict.{get}
use quorrin.Position.{PositionSide, long, short}
use quorrin.Execution.Gates.{hysteresis_blocks, chain_after}
use quorrin.Execution.Gates.Windows.{feed, blocks_flip, hysteresis_blocks-blocks_flip}
use quorrin.Execution.Orders.{OrderManager, buy, check_pending_orders}
use quorrin.Execution.Orders.Refinement.{
  Call, on_market, on_limit, on_cancel, run_calls, view, book_calls, run_calls-book_calls,
}
use quorrin.Execution.PaperBroker.{paper_api}
use quorrin.Execution.PaperBroker.Records.{PaperBroker, Services}
use quorrin.Execution.PaperBroker.Settling.{Known, check_pending_orders-settled}
use quorrin.Tests.Data.{whole}

abbrev history : List PositionSide
history = long ∷ long ∷ short ∷ long ∷ []

hysteresis_blocks-blocks_flip_example :
    (feed history [] ≡ last_n 3 history)
    × (hysteresis_blocks true (some long) short (chain_after short (feed history []))
        ≡ blocks_flip true (some long) short (history ++ short ∷ []))
hysteresis_blocks-blocks_flip_example = hysteresis_blocks-blocks_flip true (some long) short history

-- Every asset costs 100, orders fill at the price, and the first ids are told apart.
abbrev services : Services fixed Unit
services = record {
  fetch = λ asset. some (whole 100);
  slippage = λ o price t. (t, whole 0);
  str_of = λ n. if n == 1 then "1" else "2";
}

abbrev broker : PaperBroker fixed Unit
broker = record {
  cash = whole 1000;
  fees = whole 0;
  allow_short = false;
  positions = [];
  orders = [];
  next_order_id = 1;
  price_cache = [];
  tracking = tt;
}

abbrev manager : OrderManager fixed (PaperBroker fixed Unit)
manager = record { broker = broker; pending_orders = []; filled_orders = []; cancelled_orders = [] }

abbrev calls : List (Call fixed)
calls =
    on_market "EURUSD" buy (whole 2) none none none
    ∷ on_limit "GC" buy (whole 1) (whole 90)
    ∷ on_cancel "1"
    ∷ []

run_calls-book_calls_example :
    view fixed (paper_api fixed services) (run_calls fixed (paper_api fixed services) calls manager)
    ≡ book_calls fixed
        (paper_api fixed services)
        calls
        (view fixed (paper_api fixed services) manager)
run_calls-book_calls_example = run_calls-book_calls fixed (paper_api fixed services) calls manager

nothing-Known : Known fixed services manager
unfolding get
nothing-Known = λ j n. inl refl

check_pending_orders-settled_example :
    get "1"
      (check_pending_orders fixed
        (paper_api fixed services)
        (run_calls fixed (paper_api fixed services) calls manager)).pending_orders
    ≡ none
check_pending_orders-settled_example =
    check_pending_orders-settled fixed services calls manager "1" nothing-Known refl

mul_zero : (x : ℕ) → fixed.mul x (whole 0) ≡ whole 0
mul_zero x = ground arith

zero_mul : (y : ℕ) → fixed.mul (whole 0) y ≡ whole 0
zero_mul y = ground arith
