-- ===== src/Replay/Verify.antt =====
-- paper_trading/replay/runner.py: `verify_continuity`, which is to find a replay that diverges.
use quorrin.Base.{
  ℕ, zero, suc, ◌%◌, String, Bool, true, not, Option, none, some, List, [], ◌∷◌, ◌++◌, get_elem?,
  Float, ◌==◌, if◌then◌else◌, ◌&&◌, ◌||◌,
}
use quorrin.Base.Floats
use quorrin.Base.Dict.{Dict, get}
use quorrin.Base.Values.{Value, int, Fields, end, field, get_field, field_or_null, as_obj, equal}
use quorrin.Base.Options.{◌>>=◌}
use quorrin.Replay.{ReplayRunner, bind, apply, count}
use quorrin.Wal
use quorrin.Wal.{WalEvent, Json}
use text.Mathlib.Text.{◌==◌ as str_eq}

abbrev pub keys : {N : Type 0} → Fields N → List String
keys end = []
keys (field k v d) = k ∷ keys d

-- The dictionaries that pass 1 keeps, the last one for a sequence number first.
abbrev pub Snapshots : Type 0
Snapshots = List (ℕ × Dict ℕ)

unfoldable pub find : ℕ → Snapshots → Option (Dict ℕ)
find n [] = none
find n ((m, d) ∷ rest) = if m == n then some d else find n rest

-- Pass 1, which applies no event. A modulus of 0 raises.
unfoldable pub snapshots_of :
    {N : Type 0} → ℕ → List (WalEvent (Fields N)) → Dict ℕ → Snapshots → Option Snapshots
snapshots_of every [] state kept = some kept
snapshots_of zero (e ∷ es) state kept = none
snapshots_of (suc n) (e ∷ es) state kept =
    snapshots_of (suc n) es state
      (if e.sequence % suc n == 0 then (e.sequence, state) ∷ kept else kept)

module _ (F : Float) where
  -- `_assert_states_match`: whether one value of an asset is the same; where both are
  -- dictionaries, the keys that both have count
  unfoldable pub common_match : List String → Fields F.Value → Fields F.Value → Bool
  unfolding equal get_field field_or_null
  common_match [] s c = true
  common_match (k ∷ ks) s c =
      elim (get_field k c) [ none ↦ true | some w ↦ equal (Floats.eq F) (field_or_null k s) w ]
      && common_match ks s c

  unfoldable pub values_match : Value F.Value → Value F.Value → Bool
  unfolding common_match equal
  values_match sv cv = elim (as_obj sv) [
    | none ↦ equal (Floats.eq F) sv cv
    | some s ↦ elim (as_obj cv) [
      | none ↦ equal (Floats.eq F) sv cv
      | some c ↦ common_match (keys s) s c
    ]
  ]

  unfoldable pub keys_match : List String → Fields F.Value → Fields F.Value → Bool
  unfolding values_match field_or_null
  keys_match [] sa ca = true
  keys_match (k ∷ ks) sa ca =
      (str_eq k "last_ohlcv" || values_match (field_or_null k sa) (field_or_null k ca))
      && keys_match ks sa ca

  -- `d.get(name, {})`, where `.keys()` is called on it
  unfoldable pub asset_in : String → Fields F.Value → Option (Fields F.Value)
  unfolding get_field
  asset_in name d = elim (get_field name d) [ none ↦ some end | some v ↦ as_obj v ]

  unfoldable pub assets_match : List String → Fields F.Value → Fields F.Value → Option Bool
  unfolding asset_in keys_match
  assets_match [] saved current = some true
  assets_match (name ∷ names) saved current = do
    sa ← asset_in name saved
    ca ← asset_in name current
    rest ← assets_match names saved current
    some (keys_match (keys sa ++ keys ca) sa ca && rest)

  -- `state.get("assets", {})` of a dictionary of addresses
  unfoldable pub assets_of : Dict ℕ → List (Value F.Value) → Option (Fields F.Value)
  assets_of state heap = elim (get "assets" state) [
    | none ↦ some end
    | some a ↦ get_elem? heap a >>= as_obj
  ]

  -- `_assert_states_match`, and whether it raises ReplayMismatchError
  unfoldable pub assert_states_match : Dict ℕ → Dict ℕ → List (Value F.Value) → Option Bool
  unfolding assets_of assets_match
  assert_states_match saved current heap = do
    s ← assets_of saved heap
    c ← assets_of current heap
    ok ← assets_match (keys s ++ keys c) s c
    some (not ok)

  -- One event of pass 2. A mismatch is kept as its sequence number.
  unfoldable pub check_event :
      Snapshots
      → WalEvent (Fields F.Value)
      → ReplayRunner F.Value × List ℕ
      → Option (ReplayRunner F.Value × List ℕ)
  unfolding apply count find assert_states_match
  check_event kept e (r, mismatches) = do
    r₁ ← apply e r
    r₂ ← count F e.sequence r₁
    elim (find e.sequence kept) [
      | none ↦ some (r₂, mismatches)
      | some saved ↦ assert_states_match saved r₂.state r₂.heap >>= λ differ.
          some (r₂, (if differ then mismatches ++ e.sequence ∷ [] else mismatches))
    ]

  unfoldable pub check_events :
      Snapshots
      → List (WalEvent (Fields F.Value))
      → ReplayRunner F.Value × List ℕ
      → Option (ReplayRunner F.Value × List ℕ)
  unfolding check_event
  check_events kept [] s = some s
  check_events kept (e ∷ es) s = check_event kept e s >>= check_events kept es

  -- `verify_continuity`. The second reader finds its file by the path; `events` is what it reads.
  unfoldable pub verify_continuity :
      (J : Json (Fields F.Value))
      → List (WalEvent (Fields F.Value))
      → ℕ
      → ℕ
      → ℕ
      → List J.Line
      → ReplayRunner F.Value
      → Option (ReplayRunner F.Value × List ℕ)
  unfolding snapshots_of check_events bind
  verify_continuity J events corrupt seq every file r = do
    kept ← snapshots_of every events r.state []
    check_events kept (Wal.read_from J corrupt seq file)
        (bind "last_sequence" (int seq) (bind "events_replayed" (int 0) r), [])
