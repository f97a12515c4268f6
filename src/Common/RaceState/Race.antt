-- ===== src/Common/RaceState/Race.antt =====
-- `try_claim_fastest_lap` of src/common/race_state.h called by any number of threads at once: the
-- load, each compare-exchange and the store of the holder are steps of their own.
use mathlib.Core.Bool.{false≢true}
use f1_telemetry.Prelude.{
  ℕ, ◌≡◌, inl, inr, refl, sym, ap, ◌∙◌, true, false, List, [], ◌∷◌, arith, All, Bool-cases, update,
}
use f1_telemetry.Prelude.Int.{ℤ}
use f1_telemetry.Float.{Float, ◌≺◌, IsNumber, IsOrdered}
use f1_telemetry.Common.RaceState.{RaceState, new_race}

-- Where a thread stands in its call.
pub data ClaimAt (F : Type 0) : Type 0 where
  idle : ClaimAt F
  trying : (driver : ℤ) (lap best : F) → ClaimAt F  -- before `lap_ms < current_best`
  storing : (driver : ℤ) (lap : F) → ClaimAt F  -- before `fastest_lap_holder.store`

pub record System (F : Type 0) : Type 0 where
  pub race : RaceState F
  pub threads : ℕ → ClaimAt F
  pub won : List (ℤ × F)  -- the successful exchanges, latest first
  pub lost : List F  -- the laps of the calls that returned false

module _ {F : Type 0} where
  abbrev pub loaded : System F → ℕ → ℤ → F → System F
  loaded s i driver lap = record s {
    threads = update s.threads i (ClaimAt.trying driver lap s.race.fastest_lap_ms);
  }

  abbrev pub exchanged : System F → ℕ → ℤ → F → System F
  exchanged s i driver lap = record s {
    race = record (s.race) { fastest_lap_ms = lap };
    threads = update s.threads i (ClaimAt.storing driver lap);
    won = (driver, lap) ∷ s.won;
  }

  abbrev pub given_up : System F → ℕ → F → System F
  given_up s i lap = record s { threads = update s.threads i ClaimAt.idle; lost = lap ∷ s.lost }

  abbrev pub stored : System F → ℕ → ℤ → System F
  stored s i driver = record s {
    race = record (s.race) { fastest_lap_holder = driver };
    threads = update s.threads i ClaimAt.idle;
  }

module _ {F : Type 0} ⦃f : Float F⦄ where
  -- A failed exchange, spurious or not, leaves the current time in `current_best`.
  pub data Step (s : System F) : System F → Type 0 where
    loads :
        (i : ℕ) (driver : ℤ) (lap : F) → s.threads i ≡ ClaimAt.idle → Step s (loaded s i driver lap)
    wins :
        (i : ℕ) (driver : ℤ) (lap best : F)
        → s.threads i ≡ ClaimAt.trying driver lap best
        → (lap ≺ best) ≡ true
        → s.race.fastest_lap_ms ≡ best
        → Step s (exchanged s i driver lap)
    fails :
        (i : ℕ) (driver : ℤ) (lap best : F)
        → s.threads i ≡ ClaimAt.trying driver lap best
        → (lap ≺ best) ≡ true
        → Step s (loaded s i driver lap)
    gives_up :
        (i : ℕ) (driver : ℤ) (lap best : F)
        → s.threads i ≡ ClaimAt.trying driver lap best
        → (lap ≺ best) ≡ false
        → Step s (given_up s i lap)
    stores :
        (i : ℕ) (driver : ℤ) (lap : F)
        → s.threads i ≡ ClaimAt.storing driver lap
        → Step s (stored s i driver)

  abbrev pub start : System F
  unfolding new_race
  start = record { race = new_race; threads = λ _. ClaimAt.idle; won = []; lost = [] }

  pub data Reach : System F → Type 0 where
    begin : Reach start
    next : {s t : System F} → Reach s → Step s t → Reach t

  -- The times of the successful exchanges, latest first, fall strictly from the initial time.
  abbrev pub Falling : List (ℤ × F) → F → Type 0
  Falling [] ms = ms ≡ f.max_value
  Falling ((driver, lap) ∷ won) ms = (ms ≡ lap) × (p : F) × ((lap ≺ p) ≡ true) × Falling won p

  pub record Inv (s : System F) : Type 0 where
    pub falling : Falling s.won s.race.fastest_lap_ms
    pub unbeaten : All (λ lap. (lap ≺ s.race.fastest_lap_ms) ≡ false) s.lost
    pub number : IsNumber s.race.fastest_lap_ms
    -- A thread that tries has seen a time that is not faster than the present one.
    pub seen :
        (i : ℕ) (driver : ℤ) (lap best : F)
        → s.threads i ≡ ClaimAt.trying driver lap best
        → IsNumber best × ((best ≺ s.race.fastest_lap_ms) ≡ false)

  module _ (laws : IsOrdered F) where
    -- What is not faster than one time is not faster than a faster one.
    not-lt_down : (l lap best : F) → (lap ≺ best) ≡ true → (l ≺ best) ≡ false → (l ≺ lap) ≡ false
    not-lt_down l lap best h n = elim (Bool-cases (l ≺ lap)) [
      | inl faster ↦ absurd (false≢true (sym n ∙ laws.lt_trans l lap best faster h))
      | inr not_faster ↦ not_faster
    ]

    not-lt_chain : (a b c : F) → IsNumber b → (a ≺ b) ≡ false → (b ≺ c) ≡ false → (a ≺ c) ≡ false
    not-lt_chain a b c num h n = elim (Bool-cases (a ≺ c)) [
      | inl faster ↦
          let (a_num, _) = laws.numbers_of_lt a c faster in
          let b_le_a = laws.le_of_not-lt b a num a_num h in
          absurd (false≢true (sym n ∙ laws.lt_of_le_of_lt b a c b_le_a faster))
      | inr not_faster ↦ not_faster
    ]

    still_unbeaten :
        (lap best : F) (laps : List F)
        → (lap ≺ best) ≡ true
        → All (λ l. (l ≺ best) ≡ false) laps
        → All (λ l. (l ≺ lap) ≡ false) laps
    still_unbeaten lap best [] h all = tt
    still_unbeaten lap best (l ∷ laps) h (n, all) =
        (not-lt_down l lap best h n, still_unbeaten lap best laps h all)

    loaded-Inv : (s : System F) (i : ℕ) (driver : ℤ) (lap : F) → Inv s → Inv (loaded s i driver lap)
    loaded-Inv s i driver lap inv = record {
      falling = inv.falling;
      unbeaten = inv.unbeaten;
      number = inv.number;
      seen = λ j d l b e.
          ground (arith, inv.seen j d l b, inv.number, laws.lt_irrefl s.race.fastest_lap_ms);
    }

    exchanged-Inv :
        (s : System F) (i : ℕ) (driver : ℤ) (lap : F)
        → (lap ≺ s.race.fastest_lap_ms) ≡ true
        → Inv s
        → Inv (exchanged s i driver lap)
    exchanged-Inv s i driver lap h inv = record {
      falling = (refl, s.race.fastest_lap_ms, h, inv.falling);
      unbeaten = still_unbeaten lap s.race.fastest_lap_ms s.lost h inv.unbeaten;
      number = (laws.numbers_of_lt lap s.race.fastest_lap_ms h).0;
      seen =
          λ j d l b e. ground (arith, inv.seen j d l b, not-lt_down b lap s.race.fastest_lap_ms h);
    }

    pub Step-Inv : {s t : System F} → Step s t → Inv s → Inv t
    Step-Inv {s} (loads i driver lap at) inv = loaded-Inv s i driver lap inv
    Step-Inv {s} (wins i driver lap best at h e) inv =
        exchanged-Inv s i driver lap (ap (λ b. lap ≺ b) e ∙ h) inv
    Step-Inv {s} (fails i driver lap best at h) inv = loaded-Inv s i driver lap inv
    Step-Inv {s} (gives_up i driver lap best at h) inv =
        let (num, n) = inv.seen i driver lap best at in
        record {
          falling = inv.falling;
          unbeaten = (not-lt_chain lap best s.race.fastest_lap_ms num h n, inv.unbeaten);
          number = inv.number;
          seen = λ j d l b e. ground (arith, inv.seen j d l b);
        }
    Step-Inv {s} (stores i driver lap at) inv = record {
      falling = inv.falling;
      unbeaten = inv.unbeaten;
      number = inv.number;
      seen = λ j d l b e. ground (arith, inv.seen j d l b);
    }

    Reach-Inv : {s : System F} → Reach s → Inv s
    unfolding new_race
    Reach-Inv begin = record {
      falling = refl;
      unbeaten = tt;
      number = laws.max_number;
      seen = λ i d l b e. cc;
    }
    Reach-Inv (next r st) = Step-Inv st (Reach-Inv r)

    -- Under the laws of the order of `float`, in every interleaving of claims, from a new race on: each successful exchange was strictly faster
    -- than the one before it, so no two claims win with one time; the fastest time is that of the
    -- latest success; and no lap whose claim returned false is faster than it.
    pub claims_race :
        {s : System F}
        → Reach s
        → Falling s.won s.race.fastest_lap_ms
          × All (λ lap. (lap ≺ s.race.fastest_lap_ms) ≡ false) s.lost
    claims_race r = let inv = Reach-Inv r in (inv.falling, inv.unbeaten)

  -- The holder is stored after the exchange: of two overlapping claims the slower one may store last.
  -- For any two drivers and laps with the second faster than the first and the first faster than the
  -- initial time, a state is reachable in which both calls have returned true, the fastest time is the
  -- second driver's, and the holder is the first.
  pub stale_holder :
      (first second : ℤ) (slow fast : F)
      → (slow ≺ f.max_value) ≡ true
      → (fast ≺ slow) ≡ true
      → (s : System F) × Reach s
        × ((i : ℕ) → s.threads i ≡ ClaimAt.idle)
        × (s.won ≡ (second, fast) ∷ (first, slow) ∷ [])
        × (s.race.fastest_lap_ms ≡ fast)
        × (s.race.fastest_lap_holder ≡ first)
  unfolding new_race
  stale_holder first second slow fast h k = (
    _,
    next
        (next
          (next
            (next
              (next (next begin (loads 0 first slow refl))
                (wins 0 first slow f.max_value refl h refl))
              (loads 1 second fast refl))
            (wins 1 second fast slow refl k refl))
          (stores 1 second fast refl))
        (stores 0 first slow refl),
    λ i. ground arith,
    refl,
    refl,
    refl,
  )
