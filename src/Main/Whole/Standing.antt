-- ===== src/Main/Whole/Standing.antt =====
-- The leaderboard of src/main.cpp while the race runs.
use f1_telemetry.Prelude.{
  ◌∷◌, arith, ◌+◌, ap, sym, ℕ, ◌≡◌, ◌⊎◌, inl, inr, refl, sym, subst, ◌∙◌, none, some, List, [],
  length,
}
use f1_telemetry.Prelude.Result.{returned}
use f1_telemetry.Float.{Float, IsOrdered}
use f1_telemetry.Common.Types.{DriverState, TrackProfile}
use f1_telemetry.Common.Leaderboard.{Leaderboard, new_board}
use f1_telemetry.Simulation.LapTimeConsumer.{FrameQueue}
use f1_telemetry.Simulation.TelemetryGenerator.Standings.Positions.{Ranked, positions-Ranked}
use f1_telemetry.Simulation.TelemetryGenerator.Standings.Race.{length-advance_all, grid-twenty}
use f1_telemetry.Main.{Program, publish}
use f1_telemetry.Main.Published.{Published, published, publish_own, published-Published}
use f1_telemetry.Main.Whole.{
  driver_advanced, System, CallbackAt, Step, Reach, start, limits_idle, weather_idle,
}

-- What the generator's thread relies on where it stands.
abbrev Ready :
    {F : Type 0} ⦃f : Float F⦄
    → CallbackAt
    → TrackProfile F
    → List (DriverState F)
    → List (DriverState F)
    → Type 0
Ready CallbackAt.between track states left = left ≡ []
Ready CallbackAt.ticking track states left = Unit
Ready CallbackAt.ticked track states left = (left ≡ []) × Ranked track states
Ready (CallbackAt.draining batch) track states left = left ≡ []
Ready (CallbackAt.processing batch) track states left = left ≡ []

module _ {F G R : Type 0} ⦃f : Float F⦄ (sample : G → F × G) (draw : R → F × R) where
  -- Nothing is published yet, or the standings are those of a tick.
  abbrev pub Shown : ℕ → Leaderboard F → Type 0
  Shown tid board =
      ((board.writer_id ≡ none) × (board.standings ≡ []))
      ⊎ (states : List (DriverState F)) × (length states ≡ 20) × Published tid states board

  owns :
      (tid : ℕ) (board : Leaderboard F)
      → Shown tid board
      → (board.writer_id ≡ none) ⊎ (board.writer_id ≡ some tid)
  owns tid board (inl (nobody, empty)) = inl nobody
  owns tid board (inr (states, long, shown)) = inr shown.0

  record Standing (tid : ℕ) (s : System F G R) : Type 0 where
    pub twenty : length s.generator.states + length s.left ≡ 20
    pub ready : Ready s.callback s.generator.track s.generator.states s.left
    pub shown : Shown tid s.program.leaderboard

  Ready-callback :
      (s : System F G R) {c : CallbackAt}
      → s.callback ≡ c
      → Ready s.callback s.generator.track s.generator.states s.left
      → Ready c s.generator.track s.generator.states s.left
  Ready-callback s e h = subst (λ c. Ready c s.generator.track s.generator.states s.left) e h

  -- What the callback's first part makes of a tick.
  publishes_lem :
      (tid : ℕ) (s : System F G R)
      → Standing tid s
      → s.callback ≡ CallbackAt.ticked
      → (p : Program F) × (publish s.program tid s.generator.states s.generator.race_lap
            (limits_idle s.limits)
            (weather_idle s.weather_job)
          ≡ returned p)
        × Published tid s.generator.states p.leaderboard
  publishes_lem tid s h e =
      let (none_left, ranked) = Ready-callback s e h.ready in
      let states = s.generator.states in
      (
        published s.program tid states s.generator.race_lap (limits_idle s.limits)
            (weather_idle s.weather_job),
        publish_own s.program tid states s.generator.race_lap (limits_idle s.limits)
            (weather_idle s.weather_job) (owns tid s.program.leaderboard h.shown),
        published-Published s.program tid states s.generator.race_lap (limits_idle s.limits)
            (weather_idle s.weather_job) s.generator.track ranked,
      )

  returned-injective : {p q : Program F} → returned p ≡ returned q → p ≡ q
  returned-injective e = cc

  Step-Standing :
      (laws : IsOrdered F) (tid : ℕ) {s t : System F G R}
      → Step sample draw tid s t
      → Standing tid s
      → Standing tid t
  Step-Standing laws tid {s} (Step.starts e more) h = record {
    twenty =
        omega (
          arith,
          h.twenty,
          ap (λ (l : List (DriverState F)). length l) (Ready-callback s e h.ready),
        );
    ready = tt;
    shown = h.shown;
  }
  Step-Standing laws tid {s} (Step.advances state left now e rest) h = record {
    twenty = omega (
      arith,
      h.twenty,
      length-advance_all sample (state ∷ []) s.generator (λ n. now),
      ap (λ (l : List (DriverState F)). length l) rest,
    );
    ready =
        subst
          (λ c.
            Ready {F = F} c (driver_advanced sample draw s state left now).generator.track
              (driver_advanced sample draw s state left now).generator.states left)
          {x = CallbackAt.ticking} (sym e) tt;
    shown = h.shown;
  }
  Step-Standing laws tid {s} (Step.ranks e none_left) h =
      let (same, kept, far, ranked) = positions-Ranked laws s.generator.track s.generator.states in
      record {
        twenty = omega (arith, same, h.twenty);
        ready = (none_left, ranked);
        shown = h.shown;
      }
  Step-Standing laws tid {s} (Step.publishes p e there) h =
      let (q, here, shown) = publishes_lem tid s h e in
      let same : q ≡ p = returned-injective (sym here ∙ there) in
      record {
        twenty = h.twenty;
        ready = (Ready-callback s e h.ready).0;
        shown = inr (
          s.generator.states,
          omega (
            arith,
            h.twenty,
            ap (λ (l : List (DriverState F)). length l) (Ready-callback s e h.ready).0,
          ),
          subst (λ (r : Program F). Published tid s.generator.states r.leaderboard) same shown,
        );
      }
  Step-Standing laws tid {s} (Step.pops batch e events at_draining queued) h = record {
    twenty = h.twenty;
    ready = Ready-callback s at_draining h.ready;
    shown = h.shown;
  }
  Step-Standing laws tid {s} (Step.drained batch e) h = record {
    twenty = h.twenty;
    ready = Ready-callback s e h.ready;
    shown = h.shown;
  }
  Step-Standing laws tid {s} (Step.handles e batch now here) h = record {
    twenty = h.twenty;
    ready = Ready-callback s here h.ready;
    shown = h.shown;
  }
  Step-Standing laws tid {s} (Step.returns e) h = record {
    twenty = h.twenty;
    ready = Ready-callback s e h.ready;
    shown = h.shown;
  }
  Step-Standing laws tid (Step.checks driver left lap now e) h = record {
    twenty = h.twenty;
    ready = h.ready;
    shown = h.shown;
  }
  Step-Standing laws tid (Step.checks_end lap e) h = record {
    twenty = h.twenty;
    ready = h.ready;
    shown = h.shown;
  }
  Step-Standing laws tid (Step.updates lap now e) h = record {
    twenty = h.twenty;
    ready = h.ready;
    shown = h.shown;
  }

  Reach-Standing :
      (laws : IsOrdered F) (tid : ℕ) {s₀ t : System F G R}
      → Standing tid s₀
      → Reach sample draw tid s₀ t
      → Standing tid t
  Reach-Standing laws tid h Reach.begin = h
  Reach-Standing laws tid h (Reach.next r step) =
      Step-Standing laws tid step (Reach-Standing laws tid h r)
  Reach-Standing laws tid h (Reach.polls r) =
      let k = Reach-Standing laws tid h r in
      record { twenty = k.twenty; ready = k.ready; shown = k.shown }
  Reach-Standing laws tid h (Reach.ends r) =
      let k = Reach-Standing laws tid h r in
      record { twenty = k.twenty; ready = k.ready; shown = k.shown }

  module _ (queue : FrameQueue F) (track : TrackProfile F) (seed : G) (clock : ℕ → ℕ)
      (limits_seed weather_seed : R) where
    start-Standing :
        (tid : ℕ) → Standing tid (start sample draw queue track seed clock limits_seed weather_seed)
    unfolding start new_board
    start-Standing tid = record {
      twenty = omega (arith, grid-twenty sample queue track seed clock);
      ready = refl;
      shown = inl (refl, refl);
    }

    -- Under the laws of the order of `float`, in whatever order the threads take their steps: the
    -- leaderboard that the main thread reads is empty, with no writer, or it was written by the generator's
    -- thread and holds the states of twenty drivers in the order of their positions, with one at each
    -- position from 1 to 20. Whenever the generator has ticked, the callback publishes that tick's
    -- states so, and does not throw.
    pub standings_live :
        (laws : IsOrdered F) (tid : ℕ) (s : System F G R)
        → Reach sample draw tid
            (start sample draw queue track seed clock limits_seed weather_seed)
            s
        → Shown tid s.program.leaderboard
          × (s.callback ≡ CallbackAt.ticked
              → (p : Program F) × (publish s.program tid s.generator.states s.generator.race_lap
                    (limits_idle s.limits)
                    (weather_idle s.weather_job)
                  ≡ returned p)
                × Published tid s.generator.states p.leaderboard)
    standings_live laws tid s r =
        let h = Reach-Standing laws tid (start-Standing tid) r in
        (h.shown, λ e. publishes_lem tid s h e)
