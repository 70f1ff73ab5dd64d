-- ===== src/Execution/Gates/Windows.antt =====
-- The bounded histories of the pipeline against the whole history.
use mathlib.Core.List.{append_assoc, append-nil}
use quorrin.Base.{
  ◌≡◌, ◌≤◌, refl, ap, sym, ◌∙◌, Bool, true, false, not, ◌&&◌, ◌||◌, Option, none, some, List, [],
  ◌∷◌, ◌++◌, length, last_n, length-last_n, ltb, leb, arith,
}
use quorrin.Base.Windows.{push, push-last_n}
use quorrin.Position.{PositionSide, long, short}
use quorrin.Execution.Gates.{
  chain_after, hysteresis_blocks, count_agreeing, same_option, same_side, hysteresis_window,
  hysteresis_min_agree,
}

-- The chain of signals behind a history of them, from a start.
abbrev pub feed : List PositionSide → List PositionSide → List PositionSide
feed [] chain = chain
feed (side ∷ sides) chain = feed sides (chain_after side chain)

chain_after-push :
    (side : PositionSide) (chain : List PositionSide)
    → chain_after side chain ≡ push hysteresis_window side chain
unfolding chain_after push
chain_after-push side chain = refl

chain_after-last_n :
    (side : PositionSide) (h : List PositionSide)
    → chain_after side (last_n hysteresis_window h) ≡ last_n hysteresis_window (h ++ side ∷ [])
chain_after-last_n side h =
    chain_after-push side (last_n hysteresis_window h)
    ∙ push-last_n hysteresis_window side h (omega arith)

feed-last_n :
    (sides h : List PositionSide)
    → feed sides (last_n hysteresis_window h) ≡ last_n hysteresis_window (h ++ sides)
feed-last_n [] h = ap (last_n hysteresis_window) (sym (append-nil h))
feed-last_n (side ∷ sides) h =
    ap (feed sides) (chain_after-last_n side h)
    ∙ feed-last_n sides (h ++ side ∷ [])
    ∙ ap (last_n hysteresis_window) (append_assoc h (side ∷ []) sides)

-- Whether a signal asks for a side.
abbrev pub asks : PositionSide → PositionSide → Bool
asks long long = true
asks short short = true
asks _ _ = false

abbrev pub holds_other : Option PositionSide → PositionSide → Bool
holds_other none side = true
holds_other (some current) side = not (asks current side)

-- Three signals of which no two ask for the side.
abbrev pub no_two_ask : PositionSide → List PositionSide → Bool
no_two_ask side (a ∷ b ∷ c ∷ []) =
    not (asks a side && asks b side || asks a side && asks c side || asks b side && asks c side)
no_two_ask side _ = false

-- The verdict of the hysteresis as its contract has it, over the whole history of signals: an
-- open position keeps its side against another one where of the last three signals no two ask for
-- that one.
abbrev pub blocks_flip : Bool → Option PositionSide → PositionSide → List PositionSide → Bool
blocks_flip has current side history =
    has && holds_other current side && no_two_ask side (last_n 3 history)

same_side-asks : (a b : PositionSide) → same_side a b ≡ asks a b
same_side-asks long long = refl
same_side-asks long short = refl
same_side-asks short long = refl
same_side-asks short short = refl

other_side :
    (current : Option PositionSide) (side : PositionSide)
    → not (same_option (some side) current) ≡ holds_other current side
other_side none side = refl
other_side (some long) long = refl
other_side (some long) short = refl
other_side (some short) long = refl
other_side (some short) short = refl

window_verdict :
    (side : PositionSide) (chain : List PositionSide)
    → length chain ≤ 3
    → (leb hysteresis_window (length chain) && ltb (count_agreeing side chain) hysteresis_min_agree)
      ≡ no_two_ask side chain
unfolding count_agreeing
window_verdict side [] h = refl
window_verdict side (a ∷ []) h = ground arith
window_verdict side (a ∷ b ∷ []) h = ground arith
window_verdict side (a ∷ b ∷ c ∷ []) h =
    rw (same_side-asks a side, same_side-asks b side, same_side-asks c side) (ground arith)
window_verdict side (a ∷ b ∷ c ∷ d ∷ chain) h = absurd (omega arith)

-- The chain that the stage keeps, of three signals at most, decides as the whole history would:
-- fed one by one from the start, it holds the last three signals, and the stage blocks a signal
-- exactly when the contract over the whole history, this signal included, does.
pub hysteresis_blocks-blocks_flip :
    (has : Bool) (current : Option PositionSide) (side : PositionSide) (h : List PositionSide)
    → (feed h [] ≡ last_n hysteresis_window h)
      × (hysteresis_blocks has current side (chain_after side (feed h []))
          ≡ blocks_flip has current side (h ++ side ∷ []))
unfolding hysteresis_blocks
hysteresis_blocks-blocks_flip has current side h =
    let fed = feed-last_n h [] in
    let next = ap (chain_after side) fed ∙ chain_after-last_n side h in
    let short_enough = length-last_n 3 (h ++ side ∷ []) (omega arith) in
    let verdict = window_verdict side (last_n 3 (h ++ side ∷ [])) short_enough in
    (fed, rw next (rw (other_side current side) (ground (arith, verdict))))
