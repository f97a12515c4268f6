-- ===== src/Main/Whole/Invariant.antt =====
-- What every step of the running program of src/main.cpp keeps.
use mathlib.Core.List.{append_assoc}
use f1_telemetry.Prelude.{
  ◌⊎◌, Bool, ℕ, ◌+◌, ◌^◌, ◌<◌, ◌≡◌, inl, refl, sym, ap, subst, ◌∙◌, List, [], ◌∷◌, ◌++◌, arith, All,
  All-append, All-parts, length, length-append, get_or-replicate, if◌then◌else◌,
}
use f1_telemetry.Common.Types.{RaceControlEvent, PenaltyState}
use f1_telemetry.RaceControl.Penalty.{PenaltyEnforcer, new_enforcer, process_event}
use f1_telemetry.RaceControl.Penalty.Tally.{Tally, tally, due, violation}
use f1_telemetry.RaceControl.Penalty.Refine.{
  WellFormed, touched, process_event-tally, process_event-WellFormed,
}
use f1_telemetry.RaceControl.Penalty.Issued.{
  Framed, penalties, penalises, violations, count-append, count-length, issued_by,
  process_event-penalties,
}
use f1_telemetry.RaceControl.Penalty.Run.{Verdict, touched-Verdict}
use f1_telemetry.Main.Whole.{CallbackAt}

-- The events that `process_events` has popped and not yet processed.
abbrev pub batch_of : CallbackAt → List RaceControlEvent
batch_of CallbackAt.between = []
batch_of CallbackAt.ticking = []
batch_of CallbackAt.ticked = []
batch_of (CallbackAt.draining batch) = batch
batch_of (CallbackAt.processing batch) = batch

-- No penalty, or one that is still pending.
abbrev pub Unserved : Tally → Type 0
Unserved t = (t.state ≡ PenaltyState.clear) ⊎ (t.state ≡ PenaltyState.pending)

-- What the enforcer and the queue have to do with the events pushed and processed so far.
pub record Ledger (penalty : PenaltyEnforcer) (waiting pushed processed : List RaceControlEvent)
    : Type 0 where
  pub in_order : processed ++ waiting ≡ pushed
  pub well_formed : WellFormed penalty
  pub framed : All Framed pushed
  pub unserved : (i : ℕ) → Unserved (tally penalty i)
  pub verdict :
      (i : ℕ)
      → length processed < 2 ^ 32
      → Verdict (violations i processed) (penalties i pushed) (tally penalty i)

pub start-Ledger : Ledger new_enforcer [] [] []
unfolding new_enforcer violations penalties
start-Ledger = record {
  in_order = refl;
  well_formed = (refl, refl, refl);
  framed = tt;
  unserved = λ i. inl (get_or-replicate 20 i PenaltyState.clear);
  verdict = λ i h. inl (
    omega arith,
    get_or-replicate 20 i 0,
    get_or-replicate 20 i PenaltyState.clear,
    get_or-replicate 20 i 0,
    refl,
  );
}

-- Events that announce no penalty are pushed.
pub pushes-Ledger :
    {penalty : PenaltyEnforcer} {waiting pushed processed : List RaceControlEvent}
    (added : List RaceControlEvent)
    → All Framed added
    → ((i : ℕ) → penalties i added ≡ 0)
    → Ledger penalty waiting pushed processed
    → Ledger penalty (waiting ++ added) (pushed ++ added) processed
unfolding penalties
pushes-Ledger {penalty} {waiting} {pushed} {processed} added framed plain h = record {
  in_order = sym (append_assoc processed waiting added) ∙ ap (λ l. l ++ added) h.in_order;
  well_formed = h.well_formed;
  framed = All-append Framed pushed added h.framed framed;
  unserved = h.unserved;
  verdict = λ i small.
      subst (λ c. Verdict (violations i processed) c (tally penalty i)) {x = penalties i pushed}
        (omega (arith, count-append (penalises i) pushed added, plain i)) (h.verdict i small);
}

handled-Verdict :
    (penalty : PenaltyEnforcer) (pushed processed : List RaceControlEvent) (e : RaceControlEvent)
    (now i : ℕ)
    → WellFormed penalty
    → Framed e
    → length (processed ++ e ∷ []) < 2 ^ 32
    → Verdict (violations i processed) (penalties i pushed) (tally penalty i)
    → Verdict
        (violations i (processed ++ e ∷ []))
        (penalties i (pushed ++ (process_event penalty [] e now).1))
        (tally (process_event penalty [] e now).0 i)
unfolding penalties violations
handled-Verdict penalty pushed processed e now i wf four small v =
    let added = (process_event penalty [] e now).1 in
    let one : ℕ = if violation i e then 1 else 0 in
    let more = issued_by (violation i e) (due (tally penalty i)) in
    let few : (violations i processed + 1 < 2 ^ 32) =
      omega
        (arith, small, length-append processed (e ∷ []), count-length (violation i) processed) in
    let stepped =
      touched-Verdict (violation i e) (violations i processed) (penalties i pushed)
        (tally penalty i) few v in
    let counted =
      subst (λ m. Verdict m (penalties i pushed + more) (touched (violation i e) (tally penalty i)))
        {x = violations i processed + one}
        (omega (arith, count-append (violation i) processed (e ∷ []))) stepped in
    let issued =
      subst
        (λ c.
          Verdict (violations i (processed ++ e ∷ [])) c
            (touched (violation i e) (tally penalty i)))
        {x = penalties i pushed + more}
        (omega (
          arith,
          count-append (penalises i) pushed added,
          process_event-penalties penalty [] e now i four,
        ))
        counted in
    subst (Verdict (violations i (processed ++ e ∷ [])) (penalties i (pushed ++ added)))
      (sym (process_event-tally penalty [] e now i wf)) issued

touched-Unserved : (b : Bool) (t : Tally) → Unserved t → Unserved (touched b t)
touched-Unserved b t h = ground (arith, h)

-- The enforcer processes the first of the events that wait.
pub handles-Ledger :
    {penalty : PenaltyEnforcer} {rest pushed processed : List RaceControlEvent}
    (e : RaceControlEvent) (now : ℕ)
    → All Framed (process_event penalty [] e now).1
    → Ledger penalty (e ∷ rest) pushed processed
    → Ledger
        (process_event penalty [] e now).0
        (rest ++ (process_event penalty [] e now).1)
        (pushed ++ (process_event penalty [] e now).1)
        (processed ++ e ∷ [])
handles-Ledger {penalty} {rest} {pushed} {processed} e now framed h =
    let added = (process_event penalty [] e now).1 in
    let here : Framed e =
      (All-parts Framed processed (e ∷ rest) (subst (All Framed) (sym h.in_order) h.framed)).1.0 in
    record {
      in_order =
          append_assoc processed (e ∷ []) (rest ++ added)
          ∙ sym (append_assoc processed (e ∷ rest) added)
          ∙ ap (λ l. l ++ added) h.in_order;
      well_formed = process_event-WellFormed penalty [] e now h.well_formed;
      framed = All-append Framed pushed added h.framed framed;
      unserved = λ i.
          subst Unserved (sym (process_event-tally penalty [] e now i h.well_formed))
            (touched-Unserved (violation i e) (tally penalty i) (h.unserved i));
      verdict = λ i small.
          handled-Verdict penalty pushed processed e now i h.well_formed here small
            (h.verdict i (omega (arith, small, length-append processed (e ∷ []))));
    }
