-- ===== src/Position/AdaptiveExit/Tightening.antt =====
-- The stop that the trailing stop sets.
use quorrin.Base.{ℕ, ◌≡◌, Bool, true, none, some, List, [], ◌∷◌, arith, Float}
use quorrin.Position.{PositionSide, long, short}
use quorrin.Position.Envelope.{Protects, Protects-trans}
use quorrin.Position.AdaptiveExit.{
  AdaptiveExitEngine, AdaptiveExitConfig, AdaptiveExitResult, Action, Bar, compute, trail_and_decay,
  trail_stage, decay_stage, offer, tightens, no_action, best_of, peak_of,
}

module _ (F : Float) where
  -- A stop that is set is strictly tighter than the current one, and goes with an action.
  abbrev pub IsTighter : Bar F → AdaptiveExitResult F → Type 0
  IsTighter b r = elim r.new_sl [
    | none ↦ r.action ≡ no_action
    | some level ↦ tightens F b.side level b.current_sl ≡ true
  ]

  offer-IsTighter : (a : Action) (b : Bar F) (level : F.Value) → IsTighter b (offer F a b level)
  unfolding offer
  offer-IsTighter a b level = ground arith

  trail_stage-IsTighter :
      (c : AdaptiveExitConfig F) (b : Bar F) (best r : F.Value)
      → IsTighter b (trail_stage F c b best r)
  unfolding trail_stage
  trail_stage-IsTighter c b best r = ground arith

  decay_stage-IsTighter :
      (c : AdaptiveExitConfig F) (b : Bar F) (best : F.Value) (on_trail : Bool)
      (r : AdaptiveExitResult F)
      → IsTighter b r
      → IsTighter b (decay_stage F c b best on_trail r)
  unfolding decay_stage
  decay_stage-IsTighter c b best on_trail r h = ground arith

  trail_and_decay-IsTighter :
      (c : AdaptiveExitConfig F) (b : Bar F) (best r : F.Value) (s : AdaptiveExitEngine F)
      → IsTighter b (trail_and_decay F c b best r s).1
  unfolding trail_and_decay
  trail_and_decay-IsTighter c b best r s =
      decay_stage-IsTighter c b best _ _ (trail_stage-IsTighter c b best r)

  -- Whatever stage sets a stop, it is strictly tighter than the current one: above it for a
  -- long position, below it for a short one. Without a stop no action is reported.
  pub compute-IsTighter :
      (c : AdaptiveExitConfig F) (b : Bar F) (s : AdaptiveExitEngine F)
      → IsTighter b (compute F c b s).1
  unfolding compute
  compute-IsTighter c b s = ground (
    arith,
    trail_and_decay-IsTighter c b (best_of F b s) (peak_of F b (best_of F b s)) (record s {
      best_price = some (best_of F b s);
      peak_r = some (peak_of F b (best_of F b s));
    }),
  )

  -- Bars of one position fed one after another, each with the stop that the last one left.
  pub ride :
      AdaptiveExitConfig F
      → PositionSide
      → F.Value
      → List (F.Value × F.Value × ℕ)
      → F.Value
      → AdaptiveExitEngine F
      → F.Value
  ride c side entry [] stop s = stop
  ride c side entry ((price, vol, bars) ∷ rest) stop s =
      let (s', r) =
        compute F c
          (record {
            side = side;
            entry_price = entry;
            current_price = price;
            current_sl = stop;
            vol_at_entry = vol;
            bars_since_entry = bars;
          })
          s in
      ride c side entry rest (elim r.new_sl [ none ↦ stop | some level ↦ level ]) s'

  after-Protects :
      (b : Bar F) (r : AdaptiveExitResult F)
      → IsTighter b r
      → Protects F b.side (elim r.new_sl [ none ↦ b.current_sl | some level ↦ level ]) b.current_sl
  after-Protects b r h = elim b.side [ long ↦ ground arith | short ↦ ground arith ]

  -- Over all the bars of a position the trailing stop only ever moves towards the price's side:
  -- the last stop protects at least as well as the first.
  pub ride-Protects :
      (c : AdaptiveExitConfig F) (side : PositionSide) (entry : F.Value)
      (bars : List (F.Value × F.Value × ℕ)) (stop : F.Value) (s : AdaptiveExitEngine F)
      → Protects F side (ride c side entry bars stop s) stop
  unfolding ride
  ride-Protects c long entry [] stop s = omega arith
  ride-Protects c short entry [] stop s = omega arith
  ride-Protects c side entry ((price, vol, n) ∷ rest) stop s =
      let b : Bar F = record {
        side = side;
        entry_price = entry;
        current_price = price;
        current_sl = stop;
        vol_at_entry = vol;
        bars_since_entry = n;
      } in
      let (s', r) = compute F c b s in
      Protects-trans F side _ _ _
        (ride-Protects c side entry rest (elim r.new_sl [ none ↦ stop | some level ↦ level ]) s')
        (after-Protects b r (compute-IsTighter c b s))
