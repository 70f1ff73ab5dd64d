-- ===== src/Performance/Outcomes.antt =====
-- The tracker of outcomes against the whole history of the trades.
use mathlib.Core.List.{append_assoc, append-nil, reverse, reverse-append}
use quorrin.Base.{
  ℕ, ◌+◌, ◌≤◌, ◌<◌, ◌≡◌, refl, ap, ◌∙◌, ◌⊎◌, List, [], ◌∷◌, ◌++◌, map, last_n, arith, Float,
  if◌then◌else◌,
}
use quorrin.Base.Windows.{push-last_n, last_n-short}
use quorrin.Performance.Trackers.{
  Outcome, OutcomeTracker, is_win, record_trade, new_tracker, sum, nat, outcome_scalar,
}

-- The losses that a list of trades, the latest first, begins with.
pub losses_first : {F : Float} → List (Outcome F) → ℕ
losses_first [] = 0
losses_first (o ∷ os) = if is_win o then 0 else losses_first os + 1

module _ (F : Float) where
  open F use {Value, key, lit}

  abbrev pub record_trades : List (Outcome F) → OutcomeTracker F → OutcomeTracker F
  record_trades [] t = t
  record_trades (o ∷ os) t = record_trades os (record_trade F o t)

  -- What the whole history says.
  abbrev pub of_history : ℕ → List (Outcome F) → OutcomeTracker F
  of_history window h = record {
    window = window;
    outcomes = last_n window h;
    consecutive_losses = losses_first (reverse h);
    r_sum = sum F (map (λ (o : Outcome F). o.r_multiple) (last_n window h)) (nat F 0);
  }

  record_trade-of_history :
      (window : ℕ) (o : Outcome F) (h : List (Outcome F))
      → 0 < window
      → record_trade F o (of_history window h) ≡ of_history window (h ++ o ∷ [])
  unfolding record_trade losses_first
  record_trade-of_history window o h p =
      rw (push-last_n window o h p, reverse-append h (o ∷ [])) refl

  record_trades-append :
      (window : ℕ) (h os : List (Outcome F))
      → 0 < window
      → record_trades os (of_history window h) ≡ of_history window (h ++ os)
  record_trades-append window h [] p = rw (append-nil h) refl
  record_trades-append window h (o ∷ os) p =
      ap (record_trades os) (record_trade-of_history window o h p)
      ∙ record_trades-append window (h ++ o ∷ []) os p
      ∙ ap (of_history window) (append_assoc h (o ∷ []) os)

  -- After any trades a new tracker holds what the whole history says: the last trades that fit
  -- the window, the sum of their multiples, and the losses since the last win, however long
  -- ago that was, also where the window has forgotten it.
  pub record_trades-of_history :
      (window : ℕ) (os : List (Outcome F))
      → 0 < window
      → record_trades os (new_tracker F window) ≡ of_history window os
  unfolding new_tracker losses_first sum
  record_trades-of_history window os p =
      ap (record_trades os) (rw (last_n-short {A = Outcome F} window [] p (omega arith)) refl)
      ∙ record_trades-append window [] os p

  -- The scalar of the outcomes takes four values, and 1.2 is none of them: the case for it
  -- stands behind one that takes all that it would take. At a streak of three losses or more it
  -- is 0.5 at most. The literals are taken to be in their order.
  pub outcome_scalar_levels :
      (t : OutcomeTracker F)
      → key (lit 55 2) ≤ key (lit 6 1)
      → key (lit 3 0) ≤ key (lit 6 0)
      → ((outcome_scalar F t ≡ lit 3 1)
          ⊎ ((outcome_scalar F t ≡ lit 5 1)
              ⊎ ((outcome_scalar F t ≡ lit 1 0) ⊎ (outcome_scalar F t ≡ lit 11 1))))
        × (3 ≤ t.consecutive_losses
            → (outcome_scalar F t ≡ lit 3 1) ⊎ (outcome_scalar F t ≡ lit 5 1))
  unfolding outcome_scalar
  outcome_scalar_levels t h k = (ground (arith, h, k), ground arith)
