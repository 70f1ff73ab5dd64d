-- ===== src/Position/Protection/Floors.antt =====
-- What the protection does to the stop of a position.
use quorrin.Base.{◌≤◌, ◌<◌, ◌≡◌, refl, ap, ◌∙◌, Bool, false, List, [], ◌∷◌, All, arith, Float}
use quorrin.Position.{PositionSide, long, short, PositionIntent, avg_price, effective_sl, tighten}
use quorrin.Position.Envelope.{Protects, Protects-trans, tighten_layers_mono, effective_sl-Protects}
use quorrin.Position.Protection.{
  ProtectionConfig, Guard, set_breakeven, trail_level, replaces, trail_guard, guard_after, update,
  unrealized_r, peak_after,
}

module _ (F : Float) where
  open F use {Value, key, lit}

  -- A level that counts is replaced by one that counts and is no looser.
  abbrev pub Advances : PositionSide → Value → Value → Type 0
  Advances side new old =
      key (lit 0 0) < key old → (key (lit 0 0) < key new) × Protects F side new old

  tighten-Advances :
      (side : PositionSide) (stop new old : Value)
      → Advances side new old
      → Protects F side (tighten F side stop new) (tighten F side stop old)
  tighten-Advances long stop new old h = ground arith
  tighten-Advances short stop new old h = ground arith

  set_breakeven-Advances :
      (c : ProtectionConfig F) (side : PositionSide) (avg r : Value) (is_set : Bool) (floor : Value)
      → key (lit 0 0) < key avg
      → Advances side (set_breakeven F c side avg r is_set floor).floor floor
  unfolding set_breakeven
  set_breakeven-Advances c long avg r is_set floor h k = ground arith
  set_breakeven-Advances c short avg r is_set floor h k = ground arith

  trail_guard-Advances :
      (c : ProtectionConfig F) (side : PositionSide) (avg vol r peak price : Value) (g : Guard F)
      → key (lit 0 0) < key (trail_level F c side price vol)
      → Advances side (trail_guard F c side avg vol r peak price g).floor g.floor
  unfolding trail_guard replaces
  trail_guard-Advances c long avg vol r peak price g h k = ground arith
  trail_guard-Advances c short avg vol r peak price g h k = ground arith

  Advances-trans :
      (side : PositionSide) (x y z : Value)
      → Advances side x y
      → Advances side y z
      → Advances side x z
  Advances-trans side x y z h k q =
      ((h (k q).0).0, Protects-trans F side x y z (h (k q).0).1 (k q).1)

  -- An update never loosens the effective stop of a position, long or short, whose average price
  -- is positive and for which the level behind the price is positive.
  pub update-Protects :
      (c : ProtectionConfig F) (p : PositionIntent F) (price : Value)
      → key (lit 0 0) < key (avg_price F p)
      → key (lit 0 0) < key (trail_level F c p.side price p.vol)
      → Protects F p.side (effective_sl F (update F c p price)) (effective_sl F p)
  unfolding update guard_after effective_sl
  update-Protects c p price h k =
      let r = unrealized_r F p price in
      let g = set_breakeven F c p.side (avg_price F p) r p.breakeven_set p.risk_floor in
      let peak = peak_after F p.side p.peak_price price in
      tighten_layers_mono F p.side p.layers _ _ (
        tighten-Advances p.side p.stop_loss _ p.risk_floor (
          Advances-trans p.side _ g.floor p.risk_floor
            (trail_guard-Advances c p.side (avg_price F p) p.vol r peak price g k)
            (set_breakeven-Advances c p.side (avg_price F p) r p.breakeven_set p.risk_floor h)))

  -- below the activation of the trail the floor of a short position without one stays as it is
  short-floor :
      (c : ProtectionConfig F) (avg vol r peak price : Value) (is_set : Bool)
      → key (lit 0 0) < key avg
      → key r < key c.trail_activate_r
      → (trail_guard F c short avg vol r peak price
          (set_breakeven F c short avg r is_set (lit 0 0))).floor
        ≡ lit 0 0
  unfolding trail_guard set_breakeven
  short-floor c avg vol r peak price is_set h k = ground arith

  -- A short position whose risk floor is nought, as it is opened.
  abbrev pub shorted : PositionIntent F → PositionIntent F
  shorted p = record p { side = short; risk_floor = lit 0 0 }

  abbrev aged : ProtectionConfig F → PositionIntent F → Value → PositionIntent F
  aged c p price = record p {
    peak_price = peak_after F short p.peak_price price;
    breakeven_set = (guard_after F c (shorted p) price).is_set;
  }

  update-shorted :
      (c : ProtectionConfig F) (p : PositionIntent F) (price : Value)
      → key (lit 0 0) < key (avg_price F (shorted p))
      → key (unrealized_r F (shorted p) price) < key c.trail_activate_r
      → update F c (shorted p) price ≡ shorted (aged c p price)
  unfolding update guard_after
  update-shorted c p price h k =
      rw
        (short-floor c (avg_price F (shorted p)) p.vol (unrealized_r F (shorted p) price)
          (peak_after F short p.peak_price price) price p.breakeven_set h k)
        refl

  abbrev pub updates : ProtectionConfig F → List Value → PositionIntent F → PositionIntent F
  updates c [] p = p
  updates c (price ∷ prices) p = updates c prices (update F c p price)

  -- Below the activation of the trail no sequence of prices gives a short position that is opened
  -- without a floor, and whose average price is positive, any protection: its effective stop
  -- stays what it was, though each of the prices may be past the threshold of the breakeven.
  pub updates-short :
      (c : ProtectionConfig F) (prices : List Value) (p : PositionIntent F)
      → key (lit 0 0) < key (avg_price F (shorted p))
      → All (λ price. key (unrealized_r F (shorted p) price) < key c.trail_activate_r) prices
      → effective_sl F (updates c prices (shorted p)) ≡ effective_sl F (shorted p)
  unfolding unrealized_r avg_price effective_sl
  updates-short c [] p h ks = refl
  updates-short c (price ∷ prices) p h ks =
      ap (λ q. effective_sl F (updates c prices q)) (update-shorted c p price h ks.0)
      ∙ updates-short c prices (aged c p price) h ks.1

  long-floor :
      (c : ProtectionConfig F) (avg vol r peak price floor : Value)
      → key c.breakeven_threshold_r ≤ key r
      → key avg
        ≤ key
            (trail_guard F c long avg vol r peak price
              (set_breakeven F c long avg r false floor)).floor
  unfolding trail_guard set_breakeven replaces
  long-floor c avg vol r peak price floor k = ground arith

  -- A long position whose breakeven is not set.
  abbrev pub fresh_long : PositionIntent F → PositionIntent F
  fresh_long p = record p { side = long; breakeven_set = false }

  -- From the update on that finds a long position past the threshold of the breakeven for the
  -- first time, its effective stop is at its average price or above, if that price is positive.
  pub update-breakeven :
      (c : ProtectionConfig F) (p : PositionIntent F) (price : Value)
      → key (lit 0 0) < key (avg_price F (fresh_long p))
      → key c.breakeven_threshold_r ≤ key (unrealized_r F (fresh_long p) price)
      → key (avg_price F (fresh_long p)) ≤ key (effective_sl F (update F c (fresh_long p) price))
  unfolding update guard_after
  update-breakeven c p price h k =
      let q = fresh_long p in
      let f =
        long-floor c (avg_price F q) p.vol (unrealized_r F q price)
          (peak_after F long p.peak_price price) price p.risk_floor k in
      omega (arith, f, (effective_sl-Protects F (update F c q price)).1 (omega (arith, f, h)))
