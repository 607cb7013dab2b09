-- ===== src/Assistant/Prompt/Repair.antt =====
-- The repair rounds end (assistant/turns.py).
use Prim.Native.Nat.{zero}
use django_core_micha.Assistant.Prompt.{
  AfterTurn, answer_turn, repair_loop, plain, accepted, repair,
}
use django_core_micha.Base.{
  ℕ, Bool, String, ◌≤◌, false, ◌+◌, suc, not, ◌||◌, true, ◌==◌, ◌≡◌, arith, refl,
}

-- Whether the hook still asks for a repair.
abbrev pub wants_repair : AfterTurn → Bool
wants_repair (plain t) = false
wants_repair (accepted t) = false
wants_repair (repair feedback) = true

repair_loop-calls :
    (ask : ℕ → String → String) (review : String → AfterTurn) (left calls : ℕ) (text : String)
    (result : AfterTurn)
    → let (last, n) = repair_loop ask review left calls text result in
      (n ≤ calls + left) × ((not (wants_repair last.1) || n == calls + left) ≡ true)
unfolding repair_loop
repair_loop-calls ask review zero calls text result = (omega arith, ground arith)
repair_loop-calls ask review (suc left) calls text (plain t) = (omega arith, refl)
repair_loop-calls ask review (suc left) calls text (accepted t) = (omega arith, refl)
repair_loop-calls ask review (suc left) calls text (repair feedback) =
    let answer = ask calls feedback in
    let (fewer, all) = repair_loop-calls ask review left (suc calls) answer (review answer) in
    (omega arith, ground arith)

-- The provider is called at most once more than there are repair rounds, and if the hook still asks for
-- a repair of the last answer then all rounds were used.
pub answer_turn-calls :
    (ask : ℕ → String → String) (review : String → AfterTurn) (max_rounds : ℕ) (message : String)
    → let (last, n) = answer_turn ask review max_rounds message in
      (n ≤ suc max_rounds) × ((not (wants_repair last.1) || n == suc max_rounds) ≡ true)
unfolding answer_turn
answer_turn-calls ask review max_rounds message =
    let first = ask 0 message in
    let (fewer, all) = repair_loop-calls ask review max_rounds 1 first (review first) in
    (omega arith, ground arith)
