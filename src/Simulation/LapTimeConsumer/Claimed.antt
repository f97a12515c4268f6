-- ===== src/Simulation/LapTimeConsumer/Claimed.antt =====
-- Which laps src/simulation/lap_time_consumer.cpp claims.
use mathlib.Core.List.{append_assoc, append-nil}
use f1_telemetry.Prelude.{
  ℕ, zero, suc, ◌+◌, ◌-◌, ◌^◌, ◌<◌, ◌≤◌, ◌≡◌, ◌⊎◌, inl, inr, refl, sym, ap, subst, ◌∙◌, Bool, true,
  false, some, List, [], ◌∷◌, ◌++◌, arith, length, length-append, ltb, if◌then◌else◌, Bool-cases,
}
use f1_telemetry.Prelude.Int.{ℤ, pos, negsuc}
use f1_telemetry.Float.{Float, ◌≺◌, IsOrdered}
use f1_telemetry.Common.Text.{c_str}
use f1_telemetry.Common.Types.{TelemetryFrame, default_frame}
use f1_telemetry.Common.SeasonData.{driver_index_of}
use f1_telemetry.Common.RaceState.{RaceState, run_claims}
use f1_telemetry.Common.RaceState.Claims.{Fastest, run_claims-Fastest}
use f1_telemetry.Concurrency.Fifo
use f1_telemetry.Concurrency.Spsc.{push, pop, fresh}
use f1_telemetry.Concurrency.Spsc.Refine.{Holds, push_refines, pop_refines, fresh-Holds}
use f1_telemetry.Simulation.LapTimeConsumer.{
  FrameQueue, capacity_log, claim_index, claim_out, claim_frame, poll_once, drain, push_all, run,
}

module _ {F : Type 0} ⦃f : Float F⦄ where
  -- The claim in a frame: the driver's index, if a driver of the roster has just completed a lap.
  abbrev pub claim_at : ℤ → F → List (ℤ × F)
  claim_at (pos i) lap_ms = (pos i, lap_ms) ∷ []
  claim_at (negsuc n) lap_ms = []

  abbrev pub claim_in : TelemetryFrame F → List (ℤ × F)
  claim_in frame =
      if f.decimal 0 1 ≺ frame.lap_time_ms
      then claim_at (driver_index_of (c_str frame.driver_id)) frame.lap_time_ms
      else []

  unfoldable pub claims_of : List (TelemetryFrame F) → List (ℤ × F)
  claims_of [] = []
  claims_of (frame ∷ frames) = claim_in frame ++ claims_of frames

  run_claims_index :
      (race : RaceState F) (z : ℤ) (lap : F) (claims : List (ℤ × F))
      → run_claims race (claim_at z lap ++ claims) ≡ run_claims (claim_index race z lap) claims
  unfolding run_claims
  run_claims_index race (pos i) lap claims = refl
  run_claims_index race (negsuc n) lap claims = refl

  pub run_claims_frame :
      (race : RaceState F) (frame : TelemetryFrame F) (claims : List (ℤ × F))
      → run_claims race (claim_in frame ++ claims) ≡ run_claims (claim_frame race frame) claims
  unfolding claim_frame
  run_claims_frame race frame claims = ground (
    arith,
    run_claims_index race (driver_index_of (c_str frame.driver_id)) frame.lap_time_ms claims,
  )

  pub drain_claims :
      (fuel : ℕ) {q : FrameQueue F} (race : RaceState F) (xs : List (TelemetryFrame F))
      → length xs < fuel
      → Holds capacity_log q xs
      → (r : FrameQueue F) × Holds capacity_log r []
        × (drain fuel q race ≡ some (r, run_claims race (claims_of xs)))
  unfolding drain claims_of run_claims Fifo.poll
  drain_claims zero race xs room h = absurd (omega (arith, room))
  drain_claims (suc fuel) {q} race [] room h =
      let (done, out, held) = pop_refines capacity_log (omega arith) [] h in
      ((pop capacity_log q).2, held, ground (arith, done))
  drain_claims (suc fuel) {q} race (x ∷ xs) room h =
      let (done, out, held) = pop_refines capacity_log (omega arith) (x ∷ xs) h in
      let (r, last, e) = drain_claims fuel (claim_frame race x) xs (omega (arith, room)) held in
      (r, last, ground (arith, done, out, e, run_claims_frame race x (claims_of xs)))

  pub claims_of-append :
      (xs ys : List (TelemetryFrame F)) → claims_of (xs ++ ys) ≡ claims_of xs ++ claims_of ys
  unfolding claims_of
  claims_of-append [] ys = refl
  claims_of-append (x ∷ xs) ys =
      ap (λ l. claim_in x ++ l) (claims_of-append xs ys)
      ∙ sym (append_assoc (claim_in x) (claims_of xs) (claims_of ys))

  offered :
      {q : FrameQueue F} (xs : List (TelemetryFrame F)) (frame : TelemetryFrame F) (b : Bool)
      → ltb (length xs) (2 ^ capacity_log - 1) ≡ b
      → Holds capacity_log q xs
      → ((push capacity_log q frame).0 ≡ b)
        × Holds capacity_log (push capacity_log q frame).1 (if b then xs ++ frame ∷ [] else xs)
  offered {q} xs frame b e h =
      let (done, held) = push_refines capacity_log (omega arith) frame h in
      let as_fifo = Fifo.offer_lem (2 ^ capacity_log - 1) xs frame b e in
      (
        done ∙ ap (λ r. r.0) as_fifo,
        subst (λ r. Holds capacity_log (push capacity_log q frame).1 r.1) as_fifo held,
      )

  -- A push either puts the frame behind those that the ring holds, or leaves them.
  pub push_one :
      {q : FrameQueue F} (xs : List (TelemetryFrame F)) (frame : TelemetryFrame F)
      → Holds capacity_log q xs
      → ((push capacity_log q frame).0 ≡ true)
          × Holds capacity_log (push capacity_log q frame).1 (xs ++ frame ∷ [])
        ⊎ ((push capacity_log q frame).0 ≡ false)
          × Holds capacity_log (push capacity_log q frame).1 xs
  push_one {q} xs frame h = elim (Bool-cases (ltb (length xs) (2 ^ capacity_log - 1))) [
    | inl fits ↦ inl (offered xs frame true fits h)
    | inr full ↦ inr (offered xs frame false full h)
  ]

  -- The frames that get in stand behind those that the ring holds, and are no more than those pushed.
  push_all-Holds :
      (frames : List (TelemetryFrame F)) {q : FrameQueue F} (xs : List (TelemetryFrame F))
      → Holds capacity_log q xs
      → let (r, accepted) = push_all q frames in
        Holds capacity_log r (xs ++ accepted) × (length accepted ≤ length frames)
  unfolding push_all
  push_all-Holds [] {q} xs h = (subst (Holds capacity_log q) (sym (append-nil xs)) h, omega arith)
  push_all-Holds (frame ∷ frames) {q} xs h = elim (push_one xs frame h) [
    | inl (done, held) ↦
        let (last, few) = push_all-Holds frames (xs ++ frame ∷ []) held in
        let (r, accepted) = push_all (push capacity_log q frame).1 frames in
        rw done (
          subst (Holds capacity_log r) (append_assoc xs (frame ∷ []) accepted) last,
          omega (arith, few),
        )
    | inr (done, held) ↦
        let (last, few) = push_all-Holds frames xs held in rw done (last, omega (arith, few))
  ]

  poll_once-Holds :
      {q : FrameQueue F} (race : RaceState F) (xs : List (TelemetryFrame F))
      → Holds capacity_log q xs
      → let (r, after) = poll_once q race in
        (ys : List (TelemetryFrame F)) × Holds capacity_log r ys
        × (length ys ≤ length xs)
        × ((more : List (TelemetryFrame F))
            → run_claims race (claims_of (xs ++ more)) ≡ run_claims after (claims_of (ys ++ more)))
  unfolding poll_once claims_of Fifo.poll
  poll_once-Holds {q} race [] h =
      let (done, out, held) = pop_refines capacity_log (omega arith) [] h in
      (
        [],
        held,
        omega arith,
        λ more.
            ap
              (λ b.
                run_claims (if b then claim_out race (pop capacity_log q).1 else race)
                  (claims_of more))
              (sym done),
      )
  poll_once-Holds {q} race (x ∷ xs) h =
      let (done, out, held) = pop_refines capacity_log (omega arith) (x ∷ xs) h in
      (
        xs,
        held,
        omega arith,
        λ more. rw done (rw out (run_claims_frame race x (claims_of (xs ++ more)))),
      )

  abbrev pub total : List (List (TelemetryFrame F)) → ℕ
  total [] = 0
  total (frames ∷ groups) = length frames + total groups

  run_end :
      (fuel : ℕ) (q : FrameQueue F) (race : RaceState F) {r : FrameQueue F} {last : RaceState F}
      → drain fuel q race ≡ some (r, last)
      → run fuel q race [] ≡ some (last, [])
  unfolding run
  run_end fuel q race e = ground (arith, e)

  run_more :
      (fuel : ℕ) (q : FrameQueue F) (race : RaceState F) {last : RaceState F}
      {more : List (TelemetryFrame F)} (frames : List (TelemetryFrame F))
      (groups : List (List (TelemetryFrame F)))
      → (let (filled, accepted) = push_all q frames in
          let (r, after) = poll_once filled race in run fuel r after groups ≡ some (last, more))
      → run fuel q race (frames ∷ groups) ≡ some (last, (push_all q frames).1 ++ more)
  unfolding run
  run_more fuel q race frames groups e = ground (arith, e)

  run-claims :
      (groups : List (List (TelemetryFrame F))) (fuel : ℕ) {q : FrameQueue F} (race : RaceState F)
      (xs : List (TelemetryFrame F))
      → Holds capacity_log q xs
      → length xs + total groups < fuel
      → (accepted : List (TelemetryFrame F)) × (run fuel q race groups
          ≡ some (run_claims race (claims_of (xs ++ accepted)), accepted))
  run-claims [] fuel {q} race xs h room =
      let (r, last, e) = drain_claims fuel race xs (omega (arith, room)) h in
      (
        [],
        run_end fuel q race e
            ∙ ap (λ l. some (run_claims race (claims_of l), [])) (sym (append-nil xs)),
      )
  run-claims (frames ∷ groups) fuel {q} race xs h room =
      let (filled, few) = push_all-Holds frames xs h in
      let (r, accepted) = push_all q frames in
      let (ys, held, fewer, same) = poll_once-Holds race (xs ++ accepted) filled in
      let (r', after) = poll_once r race in
      let (more, e) =
        run-claims groups fuel after ys held
          (omega (arith, few, fewer, room, length-append xs accepted)) in
      (
        accepted ++ more,
        run_more fuel q race frames groups e
            ∙ ap (λ s. some (s, accepted ++ more))
                (sym (same more)
                  ∙ ap (λ l. run_claims race (claims_of l)) (append_assoc xs accepted more)),
      )

  -- Whatever the producer pushes between the turns of the loop, with more fuel than frames: `run`
  -- returns, and the race state is as if the lap times in the frames that got into the ring had been
  -- claimed one after the other in the order of the pushes, each for its driver, none twice and none
  -- left out. So, under the laws of the order of `float`, the fastest lap is that of one of them and none
  -- of them is faster, or there was none faster than before.
  pub run-Fastest :
      (laws : IsOrdered F) (groups : List (List (TelemetryFrame F))) (fuel : ℕ) (race : RaceState F)
      → total groups < fuel
      → (last : RaceState F) × (accepted : List (TelemetryFrame F)) × (run fuel
            (fresh capacity_log default_frame)
            race
            groups
          ≡ some (last, accepted))
        × (last ≡ run_claims race (claims_of accepted))
        × Fastest race (claims_of accepted) last
  run-Fastest laws groups fuel race room =
      let (accepted, e) =
        run-claims groups fuel race [] (fresh-Holds capacity_log default_frame)
          (omega (arith, room)) in
      (
        run_claims race (claims_of accepted),
        accepted,
        e,
        refl,
        run_claims-Fastest laws race (claims_of accepted),
      )
