-- ===== src/Replay/Shape/Runs.antt =====
-- paper_trading/replay/runner.py: a replay of well-shaped events comes to its end.
use quorrin.Base.{
  ℕ, ◌+◌, ◌≡◌, ◌≢◌, refl, sym, subst, inl, inr, String, Option, none, some, List, [], ◌∷◌, eq_iff,
  Bool-cases, Option-cases, Float, All,
}
use quorrin.Base.Dict.{get}
use quorrin.Base.Values.{Value, int, obj, Fields, end, field, get_field, put_field, as_obj}
use quorrin.Base.Options.{◌>>=◌}
use quorrin.Replay.{
  ReplayRunner, look, bind, store, on_asset, commit_entry, on_commit, apply, count, replay_events,
  add_one, replay,
}
use quorrin.Replay.Handlers.{asset_of, get_handler}
use quorrin.Replay.Shape.{
  IsInt, AllObjects, EntryShape, CommitShape, EventShape, IsShaped, put_field-AllObjects,
  get_field-IsObj, deep_merge-AllObjects,
}
use quorrin.Replay.Shape.Steps.{bind-IsShaped, store_assets-IsShaped, store_other-IsShaped, str-ne}
use quorrin.Wal
use quorrin.Wal.{WalEvent, Json}
use text.Mathlib.Text.{◌==◌ as str_eq}

-- The computation returns a runner of the right shape.
abbrev pub Returns : {N : Type 0} → ℕ → Option (ReplayRunner N) → Type 0
Returns {N} a o = (r : ReplayRunner N) × (o ≡ some r) × IsShaped a r

pub address_of :
    {N : Type 0} (k : String) (b : Fields N) (r : ReplayRunner N)
    → (look k r >>= as_obj) ≡ some b
    → (at : ℕ) × (get k r.state ≡ some at)
unfolding look
address_of k b r there = elim (Option-cases (get k r.state)) [
  | inl missing ↦ let bad : none ≡ some b = rw missing at there in cc
  | inr (at, found) ↦ (at, found)
]

module _ {N : Type 0} (a : ℕ) (r : ReplayRunner N) (s : IsShaped a r) where
  pub on_asset-Returns :
      (h : WalEvent (Fields N) → Fields N → Fields N) (e : WalEvent (Fields N)) (name : String)
      → asset_of e ≡ some name
      → Returns a (on_asset h e r)
  unfolding on_asset
  on_asset-Returns h e name named = elim (Option-cases (get_field name s.assets)) [
    | inl missing ↦ (
      store "assets" (obj (put_field name (obj (h e end)) s.assets)) r,
      rw (named, s.holds, missing) refl,
      store_assets-IsShaped a r s _
          (put_field-AllObjects name _ s.assets (h e end, refl) s.objects),
    )
    | inr (v, there) ↦
        let (d, is) = get_field-IsObj name s.assets v s.objects there in
        (
          store "assets" (obj (put_field name (obj (h e d)) s.assets)) r,
          rw (named, s.holds, there, is) refl,
          store_assets-IsShaped a r s _
              (put_field-AllObjects name _ s.assets (h e d, refl) s.objects),
        )
  ]

  commit_assets-IsShaped :
      (v : Value N) (d : Fields N)
      → v ≡ obj d
      → AllObjects d
      → IsShaped a (commit_entry "assets" v r)
  unfolding commit_entry
  commit_assets-IsShaped v d e h =
      rw (e, commit_entry)
        (rw (s.holds, commit_entry)
          (store_assets-IsShaped a r s _ (deep_merge-AllObjects d s.assets h s.objects)))

  not_counter :
      (k : String) (b : Fields N)
      → ((n : ℕ) × (look "events_replayed" r ≡ some (int n)))
      → (look k r >>= as_obj) ≡ some b
      → k ≢ "events_replayed"
  not_counter k b (n, c) there is =
      let there' : (look "events_replayed" r >>= as_obj) ≡ some b = rw is at there in
      let bad : none ≡ some b = rw c at there' in cc

  commit_other-IsShaped :
      (k : String) (v : Value N)
      → k ≢ "assets"
      → (k ≡ "events_replayed" → IsInt v)
      → IsShaped a (commit_entry k v r)
  unfolding commit_entry
  commit_other-IsShaped k v n i = elim (Option-cases (as_obj v)) [
    | inl plain ↦ rw (plain, commit_entry) (bind-IsShaped a r s k v n i)
    | inr (d, is) ↦ elim (Option-cases (look k r >>= as_obj)) [
      | inl fresh ↦ rw (is, fresh, commit_entry) (bind-IsShaped a r s k v n i)
      | inr (b, there) ↦
          let (at, found) = address_of k b r there in
          rw (is, there, commit_entry)
            (store_other-IsShaped a r s k at _ n (not_counter k b (s.counted) there) found)
    ]
  ]

  pub commit_entry-IsShaped :
      (k : String) (v : Value N) → EntryShape k v → IsShaped a (commit_entry k v r)
  commit_entry-IsShaped k v h = elim (Bool-cases (str_eq k "assets")) [
    | inl same ↦
        let e = (eq_iff k "assets").0 same in
        let (d, is, all) = h.0 e in
        subst (λ j. IsShaped a (commit_entry j v r)) (sym e) (commit_assets-IsShaped v d is all)
    | inr other ↦ commit_other-IsShaped k v (λ e. let t = (eq_iff k "assets").1 e in cc) h.1
  ]

pub on_commit-IsShaped :
    {N : Type 0} (a : ℕ) (p : Fields N) (r : ReplayRunner N)
    → CommitShape p
    → IsShaped a r
    → IsShaped a (on_commit p r)
unfolding on_commit
on_commit-IsShaped a end r h s = s
on_commit-IsShaped a (field k v p) r h s =
    on_commit-IsShaped a p _ h.1 (commit_entry-IsShaped a r s k v h.0)

pub apply-Returns :
    {N : Type 0} (a : ℕ) (e : WalEvent (Fields N)) (r : ReplayRunner N)
    → EventShape e
    → IsShaped a r
    → Returns a (apply e r)
unfolding apply
apply-Returns {N} a e r h s = elim (Bool-cases (str_eq e.event_type "state_committed")) [
  | inl commit ↦ rw commit (
    on_commit e.payload r,
    refl,
    on_commit-IsShaped a e.payload r (h.0 ((eq_iff e.event_type "state_committed").0 commit)) s,
  )
  | inr other ↦ rw other (elim (Option-cases (get_handler {N = N} e.event_type)) [
    | inl unknown ↦ rw (unknown, apply) (r, refl, s)
    | inr (f, known) ↦ rw (known, apply) (on_asset-Returns a r s f e h.1.0 h.1.1)
  ])
]

module _ (F : Float) where
  pub count-Returns :
      (a seq : ℕ) (r : ReplayRunner F.Value) → IsShaped a r → Returns a (count F seq r)
  unfolding count add_one
  count-Returns a seq r s =
      let s' =
        bind-IsShaped a r s "last_sequence" (int seq) (λ e. str-ne "last_sequence" "assets" refl e)
          (λ e. absurd (str-ne "last_sequence" "events_replayed" refl e)) in
      let (n, e) = s'.counted in
      (
        bind "events_replayed" (int (n + 1)) (bind "last_sequence" (int seq) r),
        rw e refl,
        bind-IsShaped a _ s' "events_replayed" _ (λ e. str-ne "events_replayed" "assets" refl e)
            (λ e. (n + 1, refl)),
      )

  pub replay_events-Returns :
      (a : ℕ) (es : List (WalEvent (Fields F.Value))) (r : ReplayRunner F.Value)
      → All EventShape es
      → IsShaped a r
      → Returns a (replay_events F es r)
  unfolding replay_events
  replay_events-Returns a [] r h s = (r, refl, s)
  replay_events-Returns a (e ∷ es) r h s =
      let (r₁, e₁, s₁) = apply-Returns a e r h.0 s in
      let (r₂, e₂, s₂) = count-Returns a e.sequence r₁ s₁ in
      let (r₃, e₃, s₃) = replay_events-Returns a es r₂ h.1 s₂ in (r₃, rw (e₁, e₂) e₃, s₃)

  -- Over a file whose events have the right shape no replay raises, from any state of the right
  -- shape: it returns a state of that shape again, in which every asset is a dictionary and the
  -- counter an integer, and whose dictionary of assets is the object that it was before.
  pub replay-Returns :
      (J : Json (Fields F.Value)) (corrupt seq : ℕ) (file : List J.Line) (a : ℕ)
      (r : ReplayRunner F.Value)
      → All EventShape (Wal.read_from J corrupt seq file)
      → IsShaped a r
      → Returns a (replay F J corrupt seq file r)
  unfolding replay
  replay-Returns J corrupt seq file a r h s =
      let s₁ =
        bind-IsShaped a r s "last_sequence" (int seq) (str-ne "last_sequence" "assets" refl)
          (λ q. absurd (str-ne "last_sequence" "events_replayed" refl q)) in
      let s₂ =
        bind-IsShaped a _ s₁ "events_replayed" (int 0) (str-ne "events_replayed" "assets" refl)
          (λ q. (0, refl)) in
      replay_events-Returns a (Wal.read_from J corrupt seq file) _ h s₂
