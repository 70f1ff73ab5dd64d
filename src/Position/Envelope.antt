-- ===== src/Position/Envelope.antt =====
-- The stop level of a position as an envelope of its levels.
use quorrin.Base.{◌≤◌, ◌<◌, ◌≡◌, refl, List, [], ◌∷◌, ◌++◌, All, arith, Float}
use quorrin.Position.{
  PositionSide, long, short, StackLayer, PositionIntent, tighten, tighten_layers, effective_sl,
}

module _ (F : Float) where
  -- At least as protective: above for a long position, below for a short one.
  abbrev pub Protects : PositionSide → F.Value → F.Value → Type 0
  Protects long x y = F.key y ≤ F.key x
  Protects short x y = F.key x ≤ F.key y

  -- A level counts if it is positive.
  abbrev pub Covers : PositionSide → F.Value → F.Value → Type 0
  Covers side x y = F.key (F.lit 0 0) < F.key y → Protects side x y

  tighten-Protects : (s : PositionSide) (best x : F.Value) → Protects s (tighten F s best x) best
  tighten-Protects long best x = ground arith
  tighten-Protects short best x = ground arith

  tighten-Covers : (s : PositionSide) (best x : F.Value) → Covers s (tighten F s best x) x
  tighten-Covers long best x p = ground arith
  tighten-Covers short best x p = ground arith

  pub Protects-trans :
      (s : PositionSide) (x y z : F.Value) → Protects s x y → Protects s y z → Protects s x z
  Protects-trans long x y z h k = omega arith
  Protects-trans short x y z h k = omega arith

  tighten_layers-Protects :
      (s : PositionSide) (ls : List (StackLayer F)) (best : F.Value)
      → Protects s (tighten_layers F s ls best) best
  unfolding tighten_layers
  tighten_layers-Protects long [] best = omega arith
  tighten_layers-Protects short [] best = omega arith
  tighten_layers-Protects s (l ∷ ls) best =
      Protects-trans s _ _ _ (tighten_layers-Protects s ls (tighten F s best l.stop_loss))
        (tighten-Protects s best l.stop_loss)

  tighten_layers-Covers :
      (s : PositionSide) (ls : List (StackLayer F)) (best : F.Value)
      → All (λ l. Covers s (tighten_layers F s ls best) l.stop_loss) ls
  unfolding tighten_layers
  tighten_layers-Covers s [] best = tt
  tighten_layers-Covers s (l ∷ ls) best = (
    λ p.
        Protects-trans s _ _ _ (tighten_layers-Protects s ls (tighten F s best l.stop_loss))
          (tighten-Covers s best l.stop_loss p),
    tighten_layers-Covers s ls (tighten F s best l.stop_loss),
  )

  tighten_mono :
      (s : PositionSide) (x y l : F.Value)
      → Protects s x y
      → Protects s (tighten F s x l) (tighten F s y l)
  tighten_mono long x y l h = ground arith
  tighten_mono short x y l h = ground arith

  pub tighten_layers_mono :
      (s : PositionSide) (ls : List (StackLayer F)) (x y : F.Value)
      → Protects s x y
      → Protects s (tighten_layers F s ls x) (tighten_layers F s ls y)
  unfolding tighten_layers
  tighten_layers_mono s [] x y h = h
  tighten_layers_mono s (l ∷ ls) x y h =
      tighten_layers_mono s ls _ _ (tighten_mono s x y l.stop_loss h)

  tighten_layers-append :
      (s : PositionSide) (ls ms : List (StackLayer F)) (best : F.Value)
      → tighten_layers F s (ls ++ ms) best ≡ tighten_layers F s ms (tighten_layers F s ls best)
  unfolding tighten_layers
  tighten_layers-append s [] ms best = refl
  tighten_layers-append s (l ∷ ls) ms best = tighten_layers-append s ls ms _

  -- The effective stop is at least as protective as the position's own stop, as its risk floor
  -- and as the stop of each of its layers, where these are positive: above them for a long
  -- position, below them for a short one.
  pub effective_sl-Protects :
      (p : PositionIntent F)
      → Protects p.side (effective_sl F p) p.stop_loss
        × Covers p.side (effective_sl F p) p.risk_floor
        × All (λ l. Covers p.side (effective_sl F p) l.stop_loss) p.layers
  unfolding effective_sl
  effective_sl-Protects p =
      let best = tighten F p.side p.stop_loss p.risk_floor in
      let all = tighten_layers-Protects p.side p.layers best in
      (
        Protects-trans p.side _ _ _ all (tighten-Protects p.side p.stop_loss p.risk_floor),
        (λ r. Protects-trans p.side _ _ _ all (tighten-Covers p.side p.stop_loss p.risk_floor r)),
        tighten_layers-Covers p.side p.layers best,
      )

  -- Layers added to a position never loosen its effective stop.
  pub effective_sl-append :
      (p : PositionIntent F) (more : List (StackLayer F))
      → Protects p.side (effective_sl F (record p { layers = p.layers ++ more })) (effective_sl F p)
  unfolding effective_sl
  effective_sl-append p more = rw tighten_layers-append (tighten_layers-Protects p.side more _)
