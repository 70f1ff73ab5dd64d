-- ===== src/Replay/Shape/Steps.antt =====
-- paper_trading/replay/runner.py: events of the right shape never raise, and keep the state's.
use quorrin.Base.{
  ℕ, ◌≡◌, ◌≢◌, refl, ◌∙◌, inl, inr, String, false, some, [], eq_iff, Bool-cases, length,
}
use quorrin.Base.Dict.{get, put, get-put}
use quorrin.Base.Values.{Value, obj, Fields, end}
use quorrin.Replay.{ReplayRunner, look, bind, store, new_runner}
use quorrin.Replay.Heap.{IsSound, look-bind, look-store, bind-IsSound, store-IsSound, store_state}
use quorrin.Replay.Shape.{IsInt, AllObjects, IsShaped}
use text.Mathlib.Text.{◌==◌ as str_eq}

pub ne→str_eq : (j k : String) → j ≢ k → str_eq j k ≡ false
ne→str_eq j k n = elim (Bool-cases (str_eq j k)) [
  | inl same ↦ absurd (n ((eq_iff j k).0 same))
  | inr other ↦ other
]

pub str-ne : (j k : String) → str_eq j k ≡ false → j ≢ k
str-ne j k n e = let t = (eq_iff j k).1 e in cc

module _ {N : Type 0} (a : ℕ) (r : ReplayRunner N) (s : IsShaped a r) where
  pub bind-IsShaped :
      (k : String) (v : Value N)
      → k ≢ "assets"
      → (k ≡ "events_replayed" → IsInt v)
      → IsShaped a (bind k v r)
  unfolding bind
  bind-IsShaped k v n i = record {
    sound = bind-IsSound r s.sound k v;
    here = get-put k "assets" (length r.heap) r.state ∙ rw (ne→str_eq k "assets" n) s.here;
    assets = s.assets;
    holds = look-bind r s.sound "assets" k v ∙ rw (ne→str_eq k "assets" n) s.holds;
    objects = s.objects;
    counted = elim (Bool-cases (str_eq k "events_replayed")) [
      | inl same ↦
          let (m, e) = i ((eq_iff k "events_replayed").0 same) in
          (m, look-bind r s.sound "events_replayed" k v ∙ rw same (rw e refl))
      | inr other ↦
          let (m, e) = s.counted in (m, look-bind r s.sound "events_replayed" k v ∙ rw other e)
    ];
  }

  pub store_assets-IsShaped : (d : Fields N) → AllObjects d → IsShaped a (store "assets" (obj d) r)
  store_assets-IsShaped d h = record {
    sound = store-IsSound r s.sound "assets" (obj d);
    here = rw (store_state "assets" (obj d) r) s.here;
    assets = d;
    holds = look-store r s.sound "assets" "assets" a (obj d) s.here;
    objects = h;
    counted =
        let (m, e) = s.counted in
        (m, look-store r s.sound "events_replayed" "assets" a (obj d) s.here ∙ e);
  }

  pub store_other-IsShaped :
      (k : String) (b : ℕ) (v : Value N)
      → k ≢ "assets"
      → k ≢ "events_replayed"
      → get k r.state ≡ some b
      → IsShaped a (store k v r)
  store_other-IsShaped k b v n m there = record {
    sound = store-IsSound r s.sound k v;
    here = rw (store_state k v r) s.here;
    assets = s.assets;
    holds = look-store r s.sound "assets" k b v there ∙ rw (ne→str_eq k "assets" n) s.holds;
    objects = s.objects;
    counted =
        let (l, e) = s.counted in
        (
          l,
          look-store r s.sound "events_replayed" k b v there
              ∙ rw (ne→str_eq k "events_replayed" m) e,
        );
  }

-- A new runner has the shape.
pub new_runner-IsShaped : {N : Type 0} → IsShaped {N = N} 0 new_runner
unfolding new_runner look bind get put
new_runner-IsShaped {N} = record {
  sound =
      bind-IsSound _
        (bind-IsSound _ (bind-IsSound _ (bind-IsSound _ empty "assets" _) "portfolio" _)
          "events_replayed" _)
        "last_sequence" _;
  here = refl;
  assets = end;
  holds = refl;
  objects = tt;
  counted = (0, refl);
}
  where
    empty : IsSound {N = N} (record { state = []; heap = [] })
    empty = record { within = λ k a h. cc; distinct = λ j k a hj hk. cc }
