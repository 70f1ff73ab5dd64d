-- ===== src/Replay/Shape.antt =====
-- paper_trading/replay/runner.py: the shape of the state that the handlers rely on, and of the
-- events that keep it.
pub mod Steps
pub mod Runs
use quorrin.Base.{
  ℕ, suc, ◌+◌, ◌≡◌, refl, sym, ◌∙◌, ◌⊎◌, inl, inr, String, Bool, true, false, Option, none, some,
  List, [], ◌∷◌, arith, eq_iff, Bool-cases, Option-cases, if◌then◌else◌, Float, All,
}
use quorrin.Base.Dict.{get, put, get-put}
use quorrin.Base.Values.{
  Value, null, truth, int, num, nan, str, arr, obj, Fields, end, field, get_field, put_field,
  as_obj, deep_merge, merged,
}
use quorrin.Base.Options.{◌>>=◌}
use quorrin.Replay.{
  ReplayRunner, look, bind, store, on_asset, commit_entry, on_commit, apply, count, replay_events,
  add_one,
}
use quorrin.Replay.Handlers.{asset_of, get_handler}
use quorrin.Replay.Heap.{IsSound, look-bind, look-store, bind-IsSound, store-IsSound}
use quorrin.Wal.{WalEvent}
use text.Mathlib.Text.{◌==◌ as str_eq}

abbrev pub IsObj : {N : Type 0} → Value N → Type 0
IsObj v = (d : Fields _) × (v ≡ obj d)

abbrev pub IsInt : {N : Type 0} → Value N → Type 0
IsInt v = (n : ℕ) × (v ≡ int n)

-- Every value is a dictionary.
abbrev pub AllObjects : {N : Type 0} → Fields N → Type 0
AllObjects end = Unit
AllObjects (field k v d) = IsObj v × AllObjects d

-- The entry of a commit for the assets holds dictionaries, that for the counter an integer.
abbrev pub EntryShape : {N : Type 0} → String → Value N → Type 0
EntryShape {N} k v =
    (k ≡ "assets" → (d : Fields N) × (v ≡ obj d) × AllObjects d) × (k ≡ "events_replayed" → IsInt v)

abbrev pub CommitShape : {N : Type 0} → Fields N → Type 0
CommitShape end = Unit
CommitShape (field k v d) = EntryShape k v × CommitShape d

abbrev pub EventShape : {N : Type 0} → WalEvent (Fields N) → Type 0
EventShape e =
    (e.event_type ≡ "state_committed" → CommitShape e.payload)
    × ((name : String) × (asset_of e ≡ some name))

-- The assets stand in the object at `a`.
pub record IsShaped {N : Type 0} (a : ℕ) (r : ReplayRunner N) : Type 0 where
  pub sound : IsSound r
  pub here : get "assets" r.state ≡ some a
  pub assets : Fields N
  pub holds : look "assets" r ≡ some (obj assets)
  pub objects : AllObjects assets
  pub counted : (n : ℕ) × (look "events_replayed" r ≡ some (int n))

module _ {N : Type 0} where
  pub put_field-AllObjects :
      (k : String) (v : Value N) (d : Fields N)
      → IsObj v
      → AllObjects d
      → AllObjects (put_field k v d)
  unfolding put_field
  put_field-AllObjects k v end o h = (o, tt)
  put_field-AllObjects k v (field j w d) o h = elim (Bool-cases (str_eq j k)) [
    | inl same ↦ rw same (o, h.1)
    | inr other ↦ rw other (h.0, put_field-AllObjects k v d o h.1)
  ]

  pub get_field-IsObj :
      (k : String) (d : Fields N) (v : Value N) → AllObjects d → get_field k d ≡ some v → IsObj v
  unfolding get_field
  get_field-IsObj k end v h e = cc
  get_field-IsObj k (field j w d) v h e = elim (Bool-cases (str_eq j k)) [
    | inl same ↦ let e' : some w ≡ some v = rw same at e in (h.0.0, cc)
    | inr other ↦ get_field-IsObj k d v h.1 (rw other at e)
  ]

  merged-IsObj : (o : Fields N) (old : Option (Value N)) → IsObj (merged (obj o) old)
  unfolding merged
  merged-IsObj o none = (o, refl)
  merged-IsObj o (some (obj b)) = (deep_merge o b, refl)
  merged-IsObj o (some null) = (o, refl)
  merged-IsObj o (some (truth b)) = (o, refl)
  merged-IsObj o (some (int n)) = (o, refl)
  merged-IsObj o (some nan) = (o, refl)
  merged-IsObj o (some (num x)) = (o, refl)
  merged-IsObj o (some (str s)) = (o, refl)
  merged-IsObj o (some (arr xs)) = (o, refl)

  pub deep_merge-AllObjects :
      (o b : Fields N) → AllObjects o → AllObjects b → AllObjects (deep_merge o b)
  unfolding deep_merge
  deep_merge-AllObjects end b ho hb = hb
  deep_merge-AllObjects (field k v rest) b ho hb =
      deep_merge-AllObjects rest _ ho.1
        (put_field-AllObjects k _ b (rw ho.0.1 (merged-IsObj ho.0.0 (get_field k b))) hb)
