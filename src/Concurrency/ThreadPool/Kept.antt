-- ===== src/Concurrency/ThreadPool/Kept.antt =====
-- Every step of the pool of src/concurrency/thread_pool.cpp keeps the invariant.
use f1_telemetry.Prelude.{ℕ, inl, inr, refl, arith}
use f1_telemetry.Concurrency.ThreadPool.{
  request_stop, System, Step, Reach, submits, notifies, notifies_nobody, sleeps, takes, finishes,
  leaves, stops, notifies_all, joins, begin, next, wakes,
}
use f1_telemetry.Concurrency.ThreadPool.Invariant.{Inv, start-Inv}
use f1_telemetry.Concurrency.ThreadPool.Tasks.{submits-Inv, takes-Inv, finishes-Inv, leaves-Inv}
use f1_telemetry.Concurrency.ThreadPool.Wakes.{sleeps-Inv, woken-Inv, nobody-Inv, notified-Inv}

module _ {A : Type 0} where
  pub Step-Inv : {n : ℕ} {s t : System A} → Step n s t → Inv n s → Inv n t
  unfolding request_stop
  Step-Inv (submits task p e) h = submits-Inv task p e h
  Step-Inv (takes i task p e turn) h = takes-Inv i task p e turn h
  Step-Inv (finishes i task e) h = finishes-Inv i task e h
  Step-Inv (leaves i e turn) h = leaves-Inv i e turn h
  Step-Inv (notifies i some_call e) h = woken-Inv i _ e h
  Step-Inv (notifies_nobody some_call up) h = nobody-Inv _ up h
  Step-Inv (sleeps i e turn) h = sleeps-Inv i e turn h
  Step-Inv {n} {s} (stops e) h = record {
    in_order = h.in_order;
    handled = h.handled;
    left = λ i out. ground (arith, h.left i out);
    beyond = h.beyond;
    gone = λ j g. absurd (omega (arith, g));
    within = omega arith;
    stopped = λ k at. refl;
    stopping = λ at. refl;
    awake = λ k i at. absurd (ground (arith, at));
    served = λ t rest some_worker tasks. inr (inr refl);
  }
  Step-Inv (notifies_all at) h = notified-Inv at h
  Step-Inv {n} {s} (joins k at room out) h = record {
    in_order = h.in_order;
    handled = h.handled;
    left = h.left;
    beyond = h.beyond;
    gone = λ j g. ground (arith, h.gone j, at, out, g);
    within = omega arith;
    stopped = λ l e. h.stopped k at;
    stopping = λ e. absurd (ground (arith, e));
    awake = λ l i e. h.awake k i at;
    served = λ t rest some_worker tasks. elim (h.served t rest some_worker tasks) [
      | inl up ↦ inl up
      | inr (inl call) ↦ inr (inl call)
      | inr (inr all) ↦ absurd (ground (arith, at, all))
    ];
  }

  pub Reach-Inv : {n : ℕ} {s : System A} → Reach n s → Inv n s
  Reach-Inv {n} begin = start-Inv n
  Reach-Inv (next r step) = Step-Inv step (Reach-Inv r)
  Reach-Inv (wakes {s} i r e) = woken-Inv i s.notifying e (Reach-Inv r)
