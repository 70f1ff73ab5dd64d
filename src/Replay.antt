-- ===== src/Replay.antt =====
-- paper_trading/replay/runner.py: a state rebuilt from the events of the log.
--
-- The values of the state dictionary are objects, and `dict(self._state)` copies the dictionary
-- but not them: `heap` holds the objects, and a dictionary gives their addresses. What stands
-- below the values is not shared, since json loads every payload anew. An asset that an event
-- names is taken to be a text; `none` is an exception.
pub mod Handlers
pub mod Verify
pub mod Heap
pub mod Shape
pub mod Continuity
use quorrin.Base.{
  ℕ, zero, suc, ◌+◌, ◌%◌, String, Bool, true, false, Option, none, some, List, [], ◌∷◌, ◌++◌,
  length, get_elem?, set, Float, ◌==◌, if◌then◌else◌,
}
use quorrin.Base.Options.{◌>>=◌}
use quorrin.Base.Dict.{Dict, get, put}
use quorrin.Base.Values.{
  Value, null, truth, int, num, nan, str, arr, obj, Fields, end, field, get_field, field_or_null,
  put_field, as_obj, deep_merge, merged, same, same_fields, has_entry,
}
use quorrin.Wal
use quorrin.Wal.{WalEvent, Json}
use text.Mathlib.Text.{◌==◌ as str_eq}
use quorrin.Replay.Handlers.{
  arg, asset_of, pick, on_features_snapshot, on_inference_output, on_decision_output,
  on_price_update, on_signal, on_entry, on_sl, on_tp, on_close, on_health, get_handler,
}

pub record ReplayRunner (N : Type 0) : Type 0 where
  pub state : Dict ℕ
  pub heap : List (Value N)

module _ {N : Type 0} where
  -- self._state.get(k)
  unfoldable pub look : String → ReplayRunner N → Option (Value N)
  look k r = get k r.state >>= get_elem? r.heap

  -- self._state[k] = v, with a new object
  unfoldable pub bind : String → Value N → ReplayRunner N → ReplayRunner N
  bind k v r = record r { state = put k (length r.heap) r.state; heap = r.heap ++ v ∷ [] }

  -- a change of the object that is there already
  unfoldable pub store : String → Value N → ReplayRunner N → ReplayRunner N
  store k v r = elim (get k r.state) [ none ↦ r | some a ↦ record r { heap = set r.heap a v } ]

  -- `ReplayRunner.__init__`
  unfoldable pub new_runner : ReplayRunner N
  unfolding bind
  new_runner = bind "last_sequence" (int 0) (
      bind "events_replayed" (int 0)
        (bind "portfolio" (obj end) (bind "assets" (obj end) (record { state = []; heap = [] }))))

  -- What the handlers share: the asset's dictionary, made where it is missing, is changed.
  unfoldable pub on_asset :
      (WalEvent (Fields N) → Fields N → Fields N)
      → WalEvent (Fields N)
      → ReplayRunner N
      → Option (ReplayRunner N)
  unfolding asset_of look store
  on_asset handler e r = do
    asset ← asset_of e
    v ← look "assets" r
    assets ← as_obj v
    entry ← elim (get_field asset assets) [ none ↦ some end | some w ↦ as_obj w ]
    some (store "assets" (obj (put_field asset (obj (handler e entry)) assets)) r)

  -- `_on_commit`, for one entry of the payload
  unfoldable pub commit_entry : String → Value N → ReplayRunner N → ReplayRunner N
  unfolding look bind store
  commit_entry k v r = elim (as_obj v) [
    | none ↦ bind k v r
    | some overlay ↦ elim (look k r >>= as_obj) [
      | none ↦ bind k v r
      | some base ↦ store k (obj (deep_merge overlay base)) r
    ]
  ]

  unfoldable pub on_commit : Fields N → ReplayRunner N → ReplayRunner N
  unfolding commit_entry
  on_commit end r = r
  on_commit (field k v rest) r = on_commit rest (commit_entry k v r)

  -- `_apply`
  unfoldable pub apply : WalEvent (Fields N) → ReplayRunner N → Option (ReplayRunner N)
  unfolding get_handler on_asset on_commit
  apply e r =
      if str_eq e.event_type "state_committed"
      then some (on_commit e.payload r)
      else elim (get_handler e.event_type) [ none ↦ some r | some h ↦ on_asset h e r ]

module _ (F : Float) where
  open F use {add, lit}

  -- v + 1
  unfoldable pub add_one : Value F.Value → Option (Value F.Value)
  add_one (int n) = some (int (n + 1))
  add_one (num x) = some (num (add x (lit 1 0)))
  add_one nan = some nan
  add_one (truth b) = some (int (if b then 2 else 1))
  add_one null = none
  add_one (str s) = none
  add_one (arr xs) = none
  add_one (obj d) = none

  -- the counters behind an event
  unfoldable pub count : ℕ → ReplayRunner F.Value → Option (ReplayRunner F.Value)
  unfolding look bind add_one
  count seq r = do
    let r' = bind "last_sequence" (int seq) r
    v ← look "events_replayed" r'
    n ← add_one v
    some (bind "events_replayed" n r')

  unfoldable pub replay_events :
      List (WalEvent (Fields F.Value)) → ReplayRunner F.Value → Option (ReplayRunner F.Value)
  unfolding apply count
  replay_events [] r = some r
  replay_events (e ∷ es) r = apply e r >>= λ r'. count e.sequence r' >>= replay_events es

  -- `replay`, over the lines of the file
  unfoldable pub replay :
      (J : Json (Fields F.Value))
      → ℕ
      → ℕ
      → List J.Line
      → ReplayRunner F.Value
      → Option (ReplayRunner F.Value)
  unfolding replay_events bind
  replay J corrupt seq file r =
      replay_events (Wal.read_from J corrupt seq file)
        (bind "events_replayed" (int 0) (bind "last_sequence" (int seq) r))
