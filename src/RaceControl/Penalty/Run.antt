-- ===== src/RaceControl/Penalty/Run.antt =====
-- src/race_control/penalty_enforcer.cpp over a whole race: calls of its operations in any order.
use f1_telemetry.Prelude.{
  ℕ, ◌+◌, ◌^◌, ◌<◌, ◌≤◌, ◌≡◌, ◌≢◌, ◌⊎◌, inl, refl, sym, subst, Bool, true, false, List, [], ◌∷◌,
  ◌++◌, arith, length, length-append, All, All-parts, get_or-replicate, if◌then◌else◌,
}
use f1_telemetry.Common.Text.{Text}
use f1_telemetry.Common.Types.{RaceControlEvent, PenaltyState}
use f1_telemetry.Common.SeasonData.{driver_index_of}
use f1_telemetry.RaceControl.{EventQueue}
use f1_telemetry.RaceControl.Penalty.{
  PenaltyEnforcer, new_enforcer, process_event, process_batch, process_events, driver_entered_pits,
  driver_exited_pits, move,
}
use f1_telemetry.RaceControl.Penalty.Tally.{Tally, tally, warned, due, violation, is_index}
use f1_telemetry.RaceControl.Penalty.Refine.{
  WellFormed, touched, process_event-tally, process_event-WellFormed, pop_all_lem,
}
use f1_telemetry.Common.SeasonData.Roster.{driver_index_of-bound}
use f1_telemetry.RaceControl.Penalty.Pits.{moved, move-tally, move-WellFormed}
use f1_telemetry.RaceControl.Penalty.Issued.{
  penalties, penalises, violations, count-length, Framed, count-append, issued_by,
  process_event-penalties,
}

-- After `n` violations of a driver and `c` announcements of penalties.
abbrev pub Verdict : ℕ → ℕ → Tally → Type 0
Verdict n c t =
    (n < 3) × (t.warnings ≡ n) × (t.state ≡ PenaltyState.clear) × (t.extra ≡ 0) × (c ≡ 0)
    ⊎ (3 ≤ n) × (t.warnings ≡ n) × (t.state ≢ PenaltyState.clear) × (t.extra ≡ 3) × (c ≡ 1)

pending≢clear : PenaltyState.pending ≢ PenaltyState.clear
pending≢clear e = absurd (ground arith)

serving≢clear : PenaltyState.serving ≢ PenaltyState.clear
serving≢clear e = absurd (ground arith)

served≢clear : PenaltyState.served ≢ PenaltyState.clear
served≢clear e = absurd (ground arith)

warned-Verdict :
    (n c : ℕ) (t : Tally)
    → n + 1 < 2 ^ 32
    → Verdict n c t
    → Verdict (n + 1) (c + issued_by true (due t)) (warned t)
warned-Verdict n c t h v = ground (arith, v, pending≢clear)

pub touched-Verdict :
    (b : Bool) (n c : ℕ) (t : Tally)
    → n + 1 < 2 ^ 32
    → Verdict n c t
    → Verdict (n + (if b then 1 else 0)) (c + issued_by b (due t)) (touched b t)
touched-Verdict true n c t h v = warned-Verdict n c t h v
touched-Verdict false n c t h v =
    subst (λ m. Verdict m (c + 0) t) {x = n} (omega arith)
      (subst (λ d. Verdict n d t) {x = c} (omega arith) v)

batch-Verdict :
    (p : PenaltyEnforcer) (events : EventQueue) (batch : List RaceControlEvent) (clock : ℕ → ℕ)
    (i n c : ℕ)
    → WellFormed p
    → All Framed batch
    → n + length batch < 2 ^ 32
    → Verdict n (c + penalties i events) (tally p i)
    → let (q, pushed) = process_batch p events batch clock in
      WellFormed q × Verdict (n + violations i batch) (c + penalties i pushed) (tally q i)
unfolding process_batch violations
batch-Verdict p events [] clock i n c wf framed h v =
    (wf, subst (λ m. Verdict m (c + penalties i events) (tally p i)) {x = n} (omega arith) v)
batch-Verdict p events (e ∷ batch) clock i n c wf (four, framed) h v =
    let now = clock (length batch) in
    let next = process_event p events e now in
    let more = issued_by (violation i e) (due (tally p i)) in
    let one : ℕ = if violation i e then 1 else 0 in
    let v₁ : Verdict (n + one) (c + penalties i events + more) (tally next.0 i) =
      subst (Verdict (n + one) (c + penalties i events + more))
        (sym (process_event-tally p events e now i wf))
        (touched-Verdict (violation i e) n (c + penalties i events) (tally p i) (omega arith) v) in
    let v₂ : Verdict (n + one) (c + penalties i next.1) (tally next.0 i) =
      subst (λ d. Verdict (n + one) d (tally next.0 i)) {x = c + penalties i events + more}
        (omega (arith, process_event-penalties p events e now i four)) v₁ in
    let (wf', last) =
      batch-Verdict next.0 next.1 batch clock i (n + one) c
        (process_event-WellFormed p events e now wf) framed (ground arith) v₂ in
    let (q, pushed) = process_batch next.0 next.1 batch clock in
    (
      wf',
      subst (λ m. Verdict m (c + penalties i pushed) (tally q i)) {x = n + one + violations i batch}
          (omega arith) last,
    )

-- A call of the enforcer; for `process_events`, with what the queue holds then.
pub data Op : Type 0 where
  process : (events : EventQueue) (clock : ℕ → ℕ) → Op
  entered : (id : Text) → Op
  exited : (id : Text) → Op

-- The enforcer after the calls, and all the events that they pushed.
unfoldable pub run :
    PenaltyEnforcer → List RaceControlEvent → List Op → PenaltyEnforcer × List RaceControlEvent
run p issued [] = (p, issued)
run p issued (Op.process events clock ∷ ops) =
    let (q, pushed) = process_events p events clock in run q (issued ++ pushed) ops
run p issued (Op.entered id ∷ ops) = run (driver_entered_pits p id) issued ops
run p issued (Op.exited id ∷ ops) = run (driver_exited_pits p id) issued ops

-- All the events that the calls found in the queue.
unfoldable pub seen : List Op → List RaceControlEvent
seen [] = []
seen (Op.process events clock ∷ ops) = events ++ seen ops
seen (Op.entered id ∷ ops) = seen ops
seen (Op.exited id ∷ ops) = seen ops

moved-Verdict :
    (b : Bool) (expected desired : PenaltyState) (n c : ℕ) (t : Tally)
    → expected ≢ PenaltyState.clear
    → desired ≢ PenaltyState.clear
    → Verdict n c t
    → Verdict n c (record t { state = moved b expected desired t.state })
moved-Verdict b expected desired n c t h k v = ground (arith, h, k, v)

move-Verdict :
    (p : PenaltyEnforcer) (id : Text) (expected desired : PenaltyState) (i n c : ℕ)
    → WellFormed p
    → expected ≢ PenaltyState.clear
    → desired ≢ PenaltyState.clear
    → Verdict n c (tally p i)
    → Verdict n c (tally (move p (driver_index_of id) expected desired) i)
move-Verdict p id expected desired i n c wf h k v =
    subst (Verdict n c)
      (sym (move-tally p (driver_index_of id) i expected desired wf (driver_index_of-bound id)))
      (moved-Verdict (is_index (driver_index_of id) i) expected desired n c (tally p i) h k v)

process_events-Verdict :
    (p : PenaltyEnforcer) (issued events : List RaceControlEvent) (clock : ℕ → ℕ) (i n : ℕ)
    → WellFormed p
    → All Framed events
    → n + length events < 2 ^ 32
    → Verdict n (penalties i issued) (tally p i)
    → let (q, pushed) = process_events p events clock in
      WellFormed q × Verdict (n + violations i events) (penalties i (issued ++ pushed)) (tally q i)
unfolding process_events penalties
process_events-Verdict p issued events clock i n wf framed h v = rw (pop_all_lem events) (
    let (q, pushed) = process_batch p [] events clock in
    let (wf', after) =
      batch-Verdict p [] events clock i n (penalties i issued) wf framed h
        (subst (λ c. Verdict n c (tally p i)) {x = penalties i issued} (omega arith) v) in
    (
      wf',
      subst (λ c. Verdict (n + violations i events) c (tally q i))
          (sym (count-append (penalises i) issued pushed)) after,
    ))

-- What a run from a state leaves.
run-Verdict :
    (p : PenaltyEnforcer) (issued : List RaceControlEvent) (ops : List Op) (i n : ℕ)
    → WellFormed p
    → All Framed (seen ops)
    → n + length (seen ops) < 2 ^ 32
    → Verdict n (penalties i issued) (tally p i)
    → let (q, all_issued) = run p issued ops in
      Verdict (n + violations i (seen ops)) (penalties i all_issued) (tally q i)
unfolding run seen violations driver_entered_pits driver_exited_pits
run-Verdict p issued [] i n wf framed h v =
    subst (λ m. Verdict m (penalties i issued) (tally p i)) {x = n} (omega arith) v
run-Verdict p issued (Op.process events clock ∷ ops) i n wf framed h v =
    let (here, rest) = All-parts Framed events (seen ops) framed in
    let (q, pushed) = process_events p events clock in
    let (wf', after) =
      process_events-Verdict p issued events clock i n wf here
        (omega (arith, length-append events (seen ops))) v in
    subst
      (λ m.
        Verdict m (penalties i (run q (issued ++ pushed) ops).1)
          (tally (run q (issued ++ pushed) ops).0 i))
      {x = n + violations i events + violations i (seen ops)}
      (omega (arith, count-append (violation i) events (seen ops)))
      (run-Verdict q (issued ++ pushed) ops i (n + violations i events) wf' rest
        (omega (arith, length-append events (seen ops), count-length (violation i) events)) after)
run-Verdict p issued (Op.entered id ∷ ops) i n wf framed h v =
    run-Verdict (move p (driver_index_of id) PenaltyState.pending PenaltyState.serving) issued ops i
      n (move-WellFormed p (driver_index_of id) _ _ wf) framed h
      (move-Verdict p id _ _ i n (penalties i issued) wf pending≢clear serving≢clear v)
run-Verdict p issued (Op.exited id ∷ ops) i n wf framed h v =
    run-Verdict (move p (driver_index_of id) PenaltyState.serving PenaltyState.served) issued ops i
      n (move-WellFormed p (driver_index_of id) _ _ wf) framed h
      (move-Verdict p id _ _ i n (penalties i issued) wf serving≢clear served≢clear v)

-- From a new enforcer, whatever calls are made in whatever order over fewer than 2^32 events: a
-- driver of the roster with fewer than three violations has that many warnings, no penalty, no extra
-- pit time, and nothing announced; one with three or more has that many warnings, is past NONE, has
-- three ticks of extra pit time, and exactly one penalty was announced for the driver.
pub penalty_once :
    (ops : List Op) (i : ℕ)
    → All Framed (seen ops)
    → length (seen ops) < 2 ^ 32
    → let (q, issued) = run new_enforcer [] ops in
      Verdict (violations i (seen ops)) (penalties i issued) (tally q i)
unfolding new_enforcer penalties
penalty_once ops i framed bound =
    let (q, issued) = run new_enforcer [] ops in
    subst (λ n. Verdict n (penalties i issued) (tally q i)) {x = 0 + violations i (seen ops)}
      (omega arith)
      (run-Verdict new_enforcer [] ops i 0 (refl, refl, refl) framed (omega (arith, bound))
        (inl (
          omega arith,
          get_or-replicate 20 i 0,
          get_or-replicate 20 i PenaltyState.clear,
          get_or-replicate 20 i 0,
          refl,
        )))
