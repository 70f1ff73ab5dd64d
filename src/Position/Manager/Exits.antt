-- ===== src/Position/Manager/Exits.antt =====
-- When a position is to be closed, and what closing does.
use quorrin.Base.{
  ◌≤◌, ◌<◌, ◌≡◌, ◌↔◌, ◌⊎◌, refl, sym, subst, String, Bool, true, false, Option, none, some,
  Option-cases, if◌then◌else◌, inl, inr, arith, Float, Bool-cases, le,
}
use quorrin.Position.{PositionSide, long, short, PositionIntent, effective_sl}
use quorrin.Position.Manager.{
  close_position, trade_of, return_of, exit_at, book, breakeven_crossed, crossed, reached, level_or,
  check_sl_tp, close, log_trade, apply_pnl,
}
use quorrin.Position.Manager.Records.{PositionManager, Trade, Days, ExitReason, sl, tp, breakeven}

no_exit :
    {A : Type 0} (a b c : Bool) (x y z : A)
    → ((if a then some x else if b then some y else if c then some z else none) ≡ none)
      ↔ ((a ≡ false) × (b ≡ false) × (c ≡ false))
no_exit a b c x y z = ground arith

first_exit :
    {A : Type 0} (a b c : Bool) (x y z r : A)
    → (if a then some x else if b then some y else if c then some z else none) ≡ some r
    → ((a ≡ true) × (r ≡ x))
      ⊎ (((a ≡ false) × (b ≡ true) × (r ≡ y)) ⊎ ((a ≡ false) × (b ≡ false) × (c ≡ true) × (r ≡ z)))
first_exit a b c x y z r h = ground arith

module _ (F : Float) where
  open F use {Value, key, lit, add, sub, mul, div}

  -- On the good side of a stop level, and short of a target.
  abbrev pub ClearOf : PositionSide → Value → Value → Type 0
  ClearOf long price level = key level < key price
  ClearOf short price level = key price < key level

  abbrev pub ShortOf : PositionSide → Value → Value → Type 0
  ShortOf long price level = key price < key level
  ShortOf short price level = key level < key price

  -- At or beyond a stop level, and at or beyond a target.
  abbrev pub Beyond : PositionSide → Value → Value → Type 0
  Beyond long price level = key price ≤ key level
  Beyond short price level = key level ≤ key price

  abbrev pub AtTarget : PositionSide → Value → Value → Type 0
  AtTarget long price level = key level ≤ key price
  AtTarget short price level = key price ≤ key level

  -- The breakeven stop is not crossed.
  abbrev pub BreakevenClear : PositionSide → Value → PositionManager F → Type 0
  BreakevenClear side price m =
      (level : Value)
      → m.scale_out_breakeven ≡ some level
      → key (lit 0 0) < key m.remaining_fraction
      → ClearOf side price level

  breakeven_crossed-false :
      (side : PositionSide) (price : Value) (m : PositionManager F)
      → BreakevenClear side price m
      → breakeven_crossed F side price m ≡ false
  breakeven_crossed-false long price m h = elim (Option-cases m.scale_out_breakeven) [
    | inl none_set ↦ rw none_set refl
    | inr (level, set) ↦ rw set (ground (arith, h level set))
  ]
  breakeven_crossed-false short price m h = elim (Option-cases m.scale_out_breakeven) [
    | inl none_set ↦ rw none_set refl
    | inr (level, set) ↦ rw set (ground (arith, h level set))
  ]

  breakeven_crossed-Clear :
      (side : PositionSide) (price : Value) (m : PositionManager F)
      → breakeven_crossed F side price m ≡ false
      → BreakevenClear side price m
  breakeven_crossed-Clear long price m h level set left = ground arith
  breakeven_crossed-Clear short price m h level set left = ground arith

  crossed-false :
      (side : PositionSide) (price level : Value)
      → (crossed F side price level ≡ false) ↔ ClearOf side price level
  crossed-false long price level = ground arith
  crossed-false short price level = ground arith

  reached-false :
      (side : PositionSide) (price level : Value)
      → (reached F side price level ≡ false) ↔ ShortOf side price level
  reached-false long price level = ground arith
  reached-false short price level = ground arith

  breakeven_crossed-Beyond :
      (side : PositionSide) (price : Value) (m : PositionManager F)
      → breakeven_crossed F side price m ≡ true
      → (m.scale_out_breakeven ≡ some (level_or F m.scale_out_breakeven))
        × (key (lit 0 0) < key m.remaining_fraction)
        × Beyond side price (level_or F m.scale_out_breakeven)
  breakeven_crossed-Beyond long price m h = elim (Option-cases m.scale_out_breakeven) [
    | inl none_set ↦ cc
    | inr (level, set) ↦ rw set (ground arith)
  ]
  breakeven_crossed-Beyond short price m h = elim (Option-cases m.scale_out_breakeven) [
    | inl none_set ↦ cc
    | inr (level, set) ↦ rw set (ground arith)
  ]

  crossed-true :
      (side : PositionSide) (price level : Value)
      → crossed F side price level ≡ true
      → Beyond side price level
  crossed-true long price level h = ground arith
  crossed-true short price level h = ground arith

  reached-true :
      (side : PositionSide) (price level : Value)
      → reached F side price level ≡ true
      → AtTarget side price level
  reached-true long price level h = ground arith
  reached-true short price level h = ground arith

  -- Why and where a position is left at a price: at the breakeven stop; else at the effective
  -- stop; else at the target.
  abbrev pub IsExit : PositionIntent F → Value → PositionManager F → ExitReason × Value → Type 0
  IsExit p price m r =
      ((level : Value) × (m.scale_out_breakeven ≡ some level)
        × (key (lit 0 0) < key m.remaining_fraction)
        × Beyond p.side price level
        × (r ≡ (breakeven, level)))
      ⊎ ((BreakevenClear p.side price m
            × Beyond p.side price (effective_sl F p)
            × (r ≡ (sl, effective_sl F p)))
          ⊎ (BreakevenClear p.side price m
              × ClearOf p.side price (effective_sl F p)
              × AtTarget p.side price p.take_profit
              × (r ≡ (tp, p.take_profit))))

  exit_at-IsExit :
      (price : Value) (m : PositionManager F) (p : PositionIntent F) (r : ExitReason × Value)
      → exit_at F price p m ≡ some r
      → IsExit p price m r
  unfolding exit_at
  exit_at-IsExit price m p r h =
      let stop = effective_sl F p in
      elim (first_exit (breakeven_crossed F p.side price m) (crossed F p.side price stop)
        (reached F p.side price p.take_profit) (breakeven, level_or F m.scale_out_breakeven)
        (sl, stop) (tp, p.take_profit) r h) [
          | inl (a, e) ↦
              let (set, left, beyond) = breakeven_crossed-Beyond p.side price m a in
              inl (level_or F m.scale_out_breakeven, set, left, beyond, e)
          | inr rest ↦ elim rest [
            | inl (a, b, e) ↦ inr (
                inl (breakeven_crossed-Clear p.side price m a, crossed-true p.side price stop b, e))
            | inr (a, b, c, e) ↦ inr (
                inr (
                  breakeven_crossed-Clear p.side price m a,
                  (crossed-false p.side price stop).0 b,
                  reached-true p.side price p.take_profit c,
                  e,
                ))
          ]
        ]

  -- The price is clear of the breakeven stop and of the effective stop, and short of the target.
  abbrev pub InRange : PositionIntent F → Value → PositionManager F → Type 0
  InRange p price m =
      BreakevenClear p.side price m
      × ClearOf p.side price (effective_sl F p)
      × ShortOf p.side price p.take_profit

  exit_at-none_iff :
      (price : Value) (m : PositionManager F) (p : PositionIntent F)
      → (exit_at F price p m ≡ none) ↔ InRange p price m
  unfolding exit_at
  exit_at-none_iff price m p =
      let stop = effective_sl F p in
      let (clear, clear') = crossed-false p.side price stop in
      let (short_of, short_of') = reached-false p.side price p.take_profit in
      let (kept, kept') =
        no_exit (breakeven_crossed F p.side price m) (crossed F p.side price stop)
          (reached F p.side price p.take_profit) (breakeven, level_or F m.scale_out_breakeven)
          (sl, stop) (tp, p.take_profit) in
      (
        (λ e.
            let (a, b, c) = kept e in
            (breakeven_crossed-Clear p.side price m a, clear b, short_of c)),
        (λ (a, b, c). kept' (breakeven_crossed-false p.side price m a, clear' b, short_of' c)),
      )

  check_sl_tp-none :
      (given : Option Value) (m : PositionManager F) (p : PositionIntent F)
      → m.position ≡ some p
      → (check_sl_tp F given m ≡ none)
        ↔ ((given ≡ none) ⊎ ((price : Value) × (given ≡ some price) × InRange p price m))
  unfolding check_sl_tp
  check_sl_tp-none none m p h = rw h ((λ e. inl refl), (λ x. refl))
  check_sl_tp-none (some price) m p h =
      let (kept, kept') = exit_at-none_iff price m p in
      rw (h, check_sl_tp)
        (
          (λ e. inr (price, refl, kept e)),
          (λ x. elim x [
            | inl bad ↦ cc
            | inr (q, same, clear) ↦
                let e : q ≡ price = cc in kept' (subst (λ y. InRange p y m) e clear)
          ]),
        )

  check_sl_tp-some :
      (given : Option Value) (m : PositionManager F) (p : PositionIntent F) (r : ExitReason × Value)
      → m.position ≡ some p
      → check_sl_tp F given m ≡ some r
      → (price : Value) × (given ≡ some price) × IsExit p price m r
  unfolding check_sl_tp
  check_sl_tp-some none m p r h e = let e' : none ≡ some r = rw h at e in cc
  check_sl_tp-some (some price) m p r h e =
      (price, refl, exit_at-IsExit price m p r (rw (h, check_sl_tp) at e))

  -- What becomes of an open position at a price. It is kept exactly if the price is NaN, or is
  -- clear of the breakeven stop, where one stands for a rest of the position, clear of the
  -- effective stop, and short of the target. Otherwise the price is at or beyond the level that
  -- is returned: this is the breakeven stop if the price is at or beyond it, else the effective
  -- stop if the price is at or beyond that, else the target.
  pub check_sl_tp_verdict :
      (given : Option Value) (m : PositionManager F) (p : PositionIntent F)
      → m.position ≡ some p
      → ((check_sl_tp F given m ≡ none)
          ↔ ((given ≡ none) ⊎ ((price : Value) × (given ≡ some price) × InRange p price m)))
        × ((r : ExitReason × Value)
            → check_sl_tp F given m ≡ some r
            → (price : Value) × (given ≡ some price) × IsExit p price m r)
  check_sl_tp_verdict given m p h =
      (check_sl_tp-none given m p h, λ r e. check_sl_tp-some given m p r h e)

  -- The return of a position between two prices.
  abbrev pub gain : PositionSide → Value → Value → Value
  gain long entry exit = sub (div exit entry) (lit 1 0)
  gain short entry exit = sub (div entry exit) (lit 1 0)

  gain-return_of :
      (side : PositionSide) (entry exit : Value)
      → return_of F side entry exit ≡ gain side entry exit
  gain-return_of long entry exit = refl
  gain-return_of short entry exit = refl

  -- The trade of a position that is closed at a price.
  pub record IsTradeOf (m : PositionManager F) (p : PositionIntent F) (exit : Value) (t : Trade F)
      : Type 0 where
    pub entry_above : key (lit 0 0) < key p.entry_price
    pub exit_above : key (lit 0 0) < key exit
    pub entry_price : t.entry ≡ p.entry_price
    pub exit_price : t.exit ≡ exit
    pub fraction : t.fraction_closed ≡ m.remaining_fraction
    pub profit :
        t.pnl
        ≡ mul
            (mul
              (mul (mul m.current_value (gain p.side p.entry_price exit)) m.position_size)
              m.exposure_multiplier)
            m.remaining_fraction

  -- What a call of `close` on a position did.
  abbrev pub CloseResult :
      Option Value
      → PositionManager F
      → Option (PositionIntent F)
      → PositionManager F × Option (Trade F)
      → Type 0
  CloseResult given m o (m', none) =
      (m' ≡ m)
      × ((p : PositionIntent F) (exit : Value)
          → o ≡ some p
          → given ≡ some exit
          → (key p.entry_price ≤ key (lit 0 0)) ⊎ (key exit ≤ key (lit 0 0)))
  CloseResult given m o (m', some t) =
      ((p : PositionIntent F) × (exit : Value) × (o ≡ some p)
        × (given ≡ some exit)
        × IsTradeOf m p exit t)
      × (m'.position ≡ none)
      × (m'.remaining_fraction ≡ lit 0 0)
      × (m'.current_value ≡ add m.current_value t.pnl)
      × (m'.trade_log ≡ log_trade F t m.trade_log)

  close_position-result :
      (days : String → String → Option Days) (given : Option Value) (date reason : String)
      (m : PositionManager F) (o : Option (PositionIntent F))
      → CloseResult given m o (close_position F days given date reason m o)
  unfolding close_position
  close_position-result days given date reason m none = (refl, λ p exit h k. cc)
  close_position-result days none date reason m (some p) = (refl, λ q exit h k. cc)
  close_position-result days (some exit) date reason m (some p) =
      elim (Bool-cases (le F p.entry_price (lit 0 0))) [
        | inl bad ↦ rw bad (
          refl,
          λ q x h k.
              let e : q ≡ p = cc in
              subst (λ r. (key r.entry_price ≤ key (lit 0 0)) ⊎ (key x ≤ key (lit 0 0))) (sym e)
                (inl (ground arith)),
        )
        | inr fine ↦ elim (Bool-cases (le F exit (lit 0 0))) [
          | inl bad ↦
              rw (fine, bad)
                (
                  refl,
                  λ q x h k.
                      let e : x ≡ exit = cc in
                      subst (λ r. (key q.entry_price ≤ key (lit 0 0)) ⊎ (key r ≤ key (lit 0 0)))
                        (sym e) (inr (ground arith)),
                )
          | inr good ↦
              rw (fine, good)
                (unfold book apply_pnl trade_of in
                  (
                    (
                      p,
                      exit,
                      refl,
                      refl,
                      record {
                        entry_above = ground arith;
                        exit_above = ground arith;
                        entry_price = refl;
                        exit_price = refl;
                        fraction = refl;
                        profit = rw (gain-return_of p.side p.entry_price exit) refl;
                      },
                    ),
                    refl,
                    refl,
                    refl,
                    refl,
                  ))
        ]
      ]

  -- Closing either changes nothing and returns no trade, and this only for want of a position,
  -- at a price that is NaN, or where the entry or the exit price is not positive; or both are
  -- positive, and it returns the trade of the position at these prices, with the profit of what
  -- remained of it, and leaves no position and nothing of it remaining, the profit booked and
  -- the trade last in the log.
  pub close-result :
      (days : String → String → Option Days) (given : Option Value) (date reason : String)
      (m : PositionManager F)
      → CloseResult given m m.position (close F days given date reason m)
  unfolding close
  close-result days given date reason m = close_position-result days given date reason m m.position
