-- ===== src/Replay/Handlers.antt =====
-- The handlers of paper_trading/replay/runner.py, and what they read of an event.
use quorrin.Base.{String, Option, none, some, List, [], ◌∷◌, if◌then◌else◌}
use quorrin.Base.Values.{
  Value, null, str, obj, Fields, end, field, get_field, field_or_null, put_field,
}
use quorrin.Wal.{WalEvent}
use text.Mathlib.Text.{◌==◌ as str_eq}

module _ {N : Type 0} where
  -- event.payload.get(k)
  abbrev pub arg : String → WalEvent (Fields N) → Value N
  unfolding field_or_null
  arg k e = field_or_null k e.payload

  -- event.payload.get("asset", event.source)
  unfoldable pub asset_of : WalEvent (Fields N) → Option String
  unfolding get_field
  asset_of e = elim (get_field "asset" e.payload) [
    | none ↦ some e.source
    | some v ↦ elim v [ str s ↦ some s | _ ↦ none ]
  ]

  -- `{k: event.payload.get(k), ...}`
  unfoldable pub pick : List String → WalEvent (Fields N) → Fields N
  unfolding field_or_null
  pick [] e = end
  pick (k ∷ ks) e = field k (arg k e) (pick ks e)

  -- The handlers: what each makes of its asset's dictionary.
  unfoldable pub on_features_snapshot : WalEvent (Fields N) → Fields N → Fields N
  on_features_snapshot e a = put_field "feature_schema" (arg "feature_schema" e) (
      put_field "model_hash" (arg "model_hash" e) (
        put_field "feature_hash" (arg "feature_hash" e)
          (put_field "last_features" (arg "features" e) a)))

  unfoldable pub on_inference_output : WalEvent (Fields N) → Fields N → Fields N
  unfolding pick
  on_inference_output e a =
      put_field "last_inference"
        (obj (
          pick ("prob_long" ∷ "prob_short" ∷ "prob_neutral" ∷ "model_hash" ∷ "feature_hash" ∷ [])
            e))
        a

  unfoldable pub on_decision_output : WalEvent (Fields N) → Fields N → Fields N
  unfolding pick
  on_decision_output e a =
      put_field "last_decision"
        (obj (pick ("final_signal" ∷ "gates_aborted" ∷ "feature_hash" ∷ "model_hash" ∷ []) e)) a

  unfoldable pub on_price_update : WalEvent (Fields N) → Fields N → Fields N
  on_price_update e a =
      put_field "last_update" (str e.timestamp)
        (put_field "last_ohlcv" (arg "ohlcv" e) (put_field "last_price" (arg "price" e) a))

  unfoldable pub on_signal : WalEvent (Fields N) → Fields N → Fields N
  on_signal e a =
      put_field "last_signal"
        (obj (
          field "signal" (arg "signal" e)
            (field "confidence" (arg "confidence" e) (field "timestamp" (str e.timestamp) end))))
        a

  unfoldable pub on_entry : WalEvent (Fields N) → Fields N → Fields N
  on_entry e a =
      put_field "position"
        (obj (
          field "side" (arg "side" e) (
            field "entry_price" (arg "fill_price" e) (
              field "fill_qty" (arg "fill_qty" e) (
                field "slippage_bps" (arg "slippage_bps" e)
                  (field "entry_time" (str e.timestamp) end))))))
        a

  unfoldable pub on_sl : WalEvent (Fields N) → Fields N → Fields N
  unfolding pick
  on_sl e a =
      put_field "stop_loss" (obj (pick ("fill_price" ∷ "gap_fill" ∷ "slippage_bps" ∷ []) e)) a

  unfoldable pub on_tp : WalEvent (Fields N) → Fields N → Fields N
  unfolding pick
  on_tp e a = put_field "take_profit" (obj (pick ("fill_price" ∷ "slippage_bps" ∷ []) e)) a

  unfoldable pub on_close : WalEvent (Fields N) → Fields N → Fields N
  on_close e a = put_field "position" null (
      put_field "closed_position"
        (obj (
          field "reason" (arg "reason" e)
            (field "pnl" (arg "pnl" e) (field "prev_position" (field_or_null "position" a) end))))
        a)

  unfoldable pub on_health : WalEvent (Fields N) → Fields N → Fields N
  on_health e a = put_field "health" (arg "health" e) a

  -- `_get_handler`, without the commit
  unfoldable pub get_handler : String → Option (WalEvent (Fields N) → Fields N → Fields N)
  get_handler t =
      if str_eq t "price_update"
      then some on_price_update
      else if str_eq t "features_snapshot"
      then some on_features_snapshot
      else if str_eq t "inference_output"
      then some on_inference_output
      else if str_eq t "decision_output"
      then some on_decision_output
      else if str_eq t "signal_generated"
      then some on_signal
      else if str_eq t "entry_executed"
      then some on_entry
      else if str_eq t "sl_executed"
      then some on_sl
      else if str_eq t "tp_executed"
      then some on_tp
      else if str_eq t "position_closed"
      then some on_close
      else if str_eq t "actor_health"
      then some on_health
      else none
