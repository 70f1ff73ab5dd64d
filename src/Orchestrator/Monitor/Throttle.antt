-- ===== src/Orchestrator/Monitor/Throttle.antt =====
-- The rate limit of the recommendations over many observations.
use text.Mathlib.Text.{◌==◌ as str_eq}
use quorrin.Base.{
  ◌≤◌, ◌<◌, ◌≡◌, refl, sym, ap, ◌∙◌, String, true, List, [], ◌∷◌, ◌++◌, length, length-last_n,
  if◌then◌else◌, arith, Float, lt, Bool-cases, inl, inr,
}
use quorrin.Base.Dict.{Dict, get, get_default, put, get-put}
use quorrin.Orchestrator.Actor.Records.{Actors}
use quorrin.Orchestrator.Monitor.{
  HealthMonitor, HealthSummary, MonitorConfig, Clock, PortfolioView, new_monitor, is_due, throttle,
  remember, recommendations_of, observe,
}

-- A recommendation that was passed on, and the clock when it was tested and noted.
pub record Warning (F : Float) : Type 0 where
  pub text : String
  pub asked : F.Value
  pub noted : F.Value

module _ (F : Float) where
  open F use {Value, lit, sub}

  -- A log has the latest warning first.
  abbrev pub last_noted : String → List (Warning F) → Value
  last_noted text [] = lit 0 0
  last_noted text (w ∷ log) = if str_eq w.text text then w.noted else last_noted text log

  abbrev pub Spaced : List (Warning F) → Type 0
  Spaced [] = Unit
  Spaced (w ∷ log) = (lt F (lit 60 0) (sub w.asked (last_noted w.text log)) ≡ true) × Spaced log

  abbrev pub log_after : Clock F → List String → List (Warning F) → List (Warning F)
  log_after c [] log = log
  log_after c (text ∷ texts) log =
      log_after c texts (record { text = text; asked = c.asked text; noted = c.noted text } ∷ log)

  -- The dictionary holds what the log says.
  Holds : Dict Value → List (Warning F) → Type 0
  Holds last log = (text : String) → get_default text (lit 0 0) last ≡ last_noted text log

  put-Holds :
      (text : String) (asked noted : Value) (last : Dict Value) (log : List (Warning F))
      → Holds last log
      → Holds (put text noted last) (record { text = text; asked = asked; noted = noted } ∷ log)
  unfolding Holds get_default
  put-Holds text asked noted last log h other =
      ground (arith, get-put text other noted last, h other)

  throttle-Spaced :
      (c : Clock F) (texts : List String) (last : Dict Value) (log : List (Warning F))
      → Holds last log
      → Spaced log
      → (let (last', passed) = throttle F c texts last in
          Holds last' (log_after c passed log) × Spaced (log_after c passed log))
  unfolding throttle
  throttle-Spaced c [] last log h s = (h, s)
  throttle-Spaced c (text ∷ texts) last log h s = elim (Bool-cases (is_due F c text last)) [
    | inl due ↦
        let spaced : lt F (lit 60 0) (sub (c.asked text) (last_noted text log)) ≡ true =
          unfold is_due Holds in
          ap (λ t. lt F (lit 60 0) (sub (c.asked text) t)) (sym (h text)) ∙ due in
        rw due (
          throttle-Spaced c texts _ _ (put-Holds text (c.asked text) (c.noted text) last log h)
            (spaced, s))
    | inr early ↦ rw early (throttle-Spaced c texts last log h s)
  ]

  remember-length :
      (config : MonitorConfig F) (s : HealthSummary F) (history : List (HealthSummary F))
      → 0 < config.history_window
      → length (remember F config s history) ≤ config.history_window
  unfolding remember
  remember-length config s history p =
      ground (arith, length-last_n config.history_window (history ++ s ∷ []) p)

  module _ (E Signal Trade : Type 0) (config : MonitorConfig F) where
    -- A call of `observe`: the clock, the actors and the portfolio.
    abbrev pub Call : Type 0
    Call = Clock F × Actors F E Signal Trade × PortfolioView F

    -- The monitor behind a run of calls, and the warnings that the calls passed on.
    abbrev pub observe_all :
        List Call → HealthMonitor F → List (Warning F) → HealthMonitor F × List (Warning F)
    observe_all [] m log = (m, log)
    observe_all ((c, actors, v) ∷ calls) m log =
        let (m', summary) = observe F config c actors v m in
        observe_all calls m' (log_after c summary.recommendations log)

    record IsLimited (m : HealthMonitor F) (log : List (Warning F)) : Type 0 where
      warnings : Holds m.last_warning log
      spaced : Spaced log
      bounded : length m.history ≤ config.history_window

    observe_all-IsLimited :
        (calls : List Call) (m : HealthMonitor F) (log : List (Warning F))
        → 0 < config.history_window
        → IsLimited m log
        → (let (m', log') = observe_all calls m log in IsLimited m' log')
    unfolding observe
    observe_all-IsLimited [] m log p h = h
    observe_all-IsLimited ((c, actors, v) ∷ calls) m log p h =
        let texts = recommendations_of F config actors v in
        let limited = throttle-Spaced c texts m.last_warning log h.warnings h.spaced in
        observe_all-IsLimited calls _ _ p (record {
          warnings = limited.0;
          spaced = limited.1;
          bounded = remember-length config _ m.history p;
        })

    -- Over any run of observations a recommendation is passed on only where more than 60 seconds
    -- have passed since the same text was last passed on, and for the first time only where the
    -- clock stands above 60 seconds; and the history never outgrows its window.
    pub observe_all-Spaced :
        (calls : List Call)
        → 0 < config.history_window
        → (let (m, log) = observe_all calls new_monitor [] in
            Spaced log × (length m.history ≤ config.history_window))
    unfolding new_monitor Holds get_default get
    observe_all-Spaced calls p =
        let h =
          observe_all-IsLimited calls new_monitor [] p
            (record { warnings = λ text. refl; spaced = tt; bounded = omega arith }) in
        (h.spaced, h.bounded)
