-- ===== src/Orchestrator/Breaker/Streak.antt =====
-- The streak of losses that `check` counts.
use mathlib.Core.List.{reverse, reverse-append}
use quorrin.Base.{
  ℕ, suc, ◌-◌, ◌*◌, ◌≤◌, ◌<◌, ◌≡◌, refl, ◌∙◌, min, length-last_n_eq, List, [], ◌∷◌, ◌++◌, length,
  length-append, drop, last_n, All, All-append, arith, Float,
}
use quorrin.Orchestrator.Breaker.{
  BreakerConfig, Breaker, leading_losses, loss_streak, record_daily_pnl,
}

module _ (F : Float) where
  abbrev pub IsLoss : F.Value → Type 0
  IsLoss pnl = F.key pnl < F.key (F.lit 0 0)

  All-drop : (n : ℕ) (xs : List F.Value) → All IsLoss xs → All IsLoss (drop n xs)
  All-drop ℕ.zero xs h = h
  All-drop (suc n) [] h = h
  All-drop (suc n) (x ∷ xs) h = All-drop n xs h.1

  All-last_n : (n : ℕ) (xs : List F.Value) → All IsLoss xs → All IsLoss (last_n n xs)
  All-last_n n xs h = ground (arith, All-drop (length xs - n) xs h)

  All-reverse : (xs : List F.Value) → All IsLoss xs → All IsLoss (reverse xs)
  All-reverse [] h = h
  All-reverse (x ∷ xs) h =
      rw (reverse-append (x ∷ []) xs)
        (All-append IsLoss (reverse xs) (x ∷ []) (All-reverse xs h.1) (h.0, tt))

  length-reverse : (xs : List F.Value) → length (reverse xs) ≡ length xs
  length-reverse [] = refl
  length-reverse (x ∷ xs) =
      rw (reverse-append (x ∷ []) xs)
        (omega (arith, length-append (reverse xs) (x ∷ []), length-reverse xs))

  leading_losses-All : (xs : List F.Value) → All IsLoss xs → leading_losses F xs ≡ length xs
  unfolding leading_losses
  leading_losses-All [] h = refl
  leading_losses-All (x ∷ xs) h = ground (arith, leading_losses-All xs h.1)

  pub record_daily_pnl-All :
      (pnl : F.Value) (b : Breaker F)
      → IsLoss pnl
      → All IsLoss b.daily_pnl_history
      → All IsLoss (record_daily_pnl F pnl b).daily_pnl_history
  unfolding record_daily_pnl
  record_daily_pnl-All pnl b h hs =
      let all = All-append IsLoss b.daily_pnl_history (pnl ∷ []) hs (h, tt) in
      ground (arith, all, All-last_n (252 * 3) (b.daily_pnl_history ++ pnl ∷ []) all)

  pub record_daily_pnl-length :
      (pnl : F.Value) (b : Breaker F)
      → 7 ≤ length b.daily_pnl_history
      → 7 ≤ length (record_daily_pnl F pnl b).daily_pnl_history
  unfolding record_daily_pnl
  record_daily_pnl-length pnl b n =
      let history = b.daily_pnl_history ++ pnl ∷ [] in
      ground (
        arith,
        length-append b.daily_pnl_history (pnl ∷ []),
        length-last_n_eq (252 * 3) history (omega arith),
      )

  -- A history of nothing but losses is one streak, cut to the lookback.
  pub loss_streak-All :
      (c : BreakerConfig F) (history : List F.Value)
      → All IsLoss history
      → 0 < c.loss_lookback
      → loss_streak F c history ≡ min c.loss_lookback (length history)
  unfolding loss_streak
  loss_streak-All c history h z =
      let recent = last_n c.loss_lookback history in
      leading_losses-All (reverse recent)
        (All-reverse recent (All-last_n c.loss_lookback history h))
      ∙ length-reverse recent
      ∙ length-last_n_eq c.loss_lookback history z
