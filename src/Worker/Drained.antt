-- ===== src/Worker/Drained.antt =====
-- The loops of `_drain` end at the deadline.
use geo_device.Prelude.{
  ℕ, zero, suc, ◌*◌, ◌≤◌, ◌<◌, ◌≡◌, ◌≢◌, refl, ◌∙◌, ap, arith, Bool, true, false, List, [], ◌∷◌,
  String, if◌then◌else◌,
}
use geo_device.Constants.{pending_messages, new_messages, read_count, block_ms}
use geo_device.Errors.{pipeline_errors}
use geo_device.Exec.{Exec, Result, ok, raised, pure, try_except, ◌>>=◌, ◌>>◌}
use geo_device.Exec.Triple.{Outcome}
use geo_device.Pings.{Entry, StreamChunk}
use geo_device.Stream
use geo_device.Stream.{pings_of, ack_commands, entries_of, response_entries}
use geo_device.Trace.{Run, perform}
use geo_device.Worker.{Env, Machine, on_run, get_worker, flush}
use geo_device.Worker.Loops.{
  drain_from, drain_chunks, drain_next, set_deadline, with_timeout, drain,
}
use geo_device.Worker.Deadline.{HasDeadline, Spends, flush-Spends, drain_from-Spends}

module _ {S A B : Type 0} (m : Exec S A) (f g : A → Exec S B) (s : S) where
  bind_at :
      (r : Result A)
      → (m s).0 ≡ r
      → ((a : A) → (m s).0 ≡ ok a → f a (m s).1 ≡ g a (m s).1)
      → (m >>= f) s ≡ (m >>= g) s
  unfolding ◌>>=◌
  bind_at (ok a) e same = rw (e, ◌>>=◌) (same a e)
  bind_at (raised x) e same = rw (e, ◌>>=◌) refl

  -- What follows is the same if it is after each return.
  bind_same : ((a : A) → (m s).0 ≡ ok a → f a (m s).1 ≡ g a (m s).1) → (m >>= f) s ≡ (m >>= g) s
  bind_same = bind_at (m s).0 refl

bind_left :
    {S A B : Type 0} (m n : Exec S A) (f : A → Exec S B) (s : S)
    → m s ≡ n s
    → (m >>= f) s ≡ (n >>= f) s
unfolding ◌>>=◌
bind_left m n f s e = rw (e, ◌>>=◌) refl

module _ {W : Type 0} (env : Env W) (left : W → ℕ) {per_ms : ℕ}
    (laws : HasDeadline env left per_ms) where
  open env use {redis, session, clock, formats, settings}

  -- From a state, code that spends time leaves no more than there was.
  spent :
      {A : Type 0} (m : Exec (Machine W) A) (s : Machine W)
      → Spends env left laws (left s.run.world) m
      → left (m s).1.run.world ≤ left s.run.world
  spent m s t = ended (m s).0 (m s).1 (t.at s (omega arith))
    where
      ended :
          {A : Type 0} (r : Result A) (s' : Machine W)
          → Outcome
              (λ a x. left x.run.world ≤ left s.run.world)
              (λ e x. left x.run.world ≤ left s.run.world)
              r
              s'
          → left s'.run.world ≤ left s.run.world
      ended (ok a) s' p = p
      ended (raised e) s' p = p

  read_takes :
      (consumer start_id : String) (r : Run W) (response : Result (List (String × List Entry)))
      (chunks : List StreamChunk)
      → (redis.xreadgroup consumer start_id read_count block_ms r.world).0 ≡ response
      → (Stream.read_new redis formats settings consumer start_id r).0 ≡ ok chunks
      → left (Stream.read_new redis formats settings consumer start_id r).1.world < left r.world
  unfolding Stream.read_new perform
  read_takes consumer start_id r (ok response) chunks e done =
      rw (e, Stream.read_new) (laws.takes consumer start_id read_count block_ms r.world response e)
  read_takes consumer start_id r (raised x) chunks e done =
      absurd (ne (rw (e, Stream.read_new) at done))
    where
      ne : raised x ≢ ok chunks
      ne p = cc

  flush_spent :
      (chunks : List StreamChunk) (s : Machine W)
      → left (flush env chunks s).1.run.world ≤ left s.run.world
  unfolding flush
  flush_spent chunks s =
      spent (flush env chunks) s
        (flush-Spends env left laws (left s.run.world) chunks (pings_of chunks))

  -- Two ends of the loop that agree where less time is left.
  chunks_same :
      (rest rest' : Exec (Machine W) Bool) (k : ℕ)
      → ((u : Machine W) → left u.run.world < k → rest u ≡ rest' u)
      → (chunks : List StreamChunk) (t : Machine W) → left t.run.world < k
      → drain_chunks env rest chunks t ≡ drain_chunks env rest' chunks t
  unfolding drain_chunks drain_next
  chunks_same rest rest' k same [] t l = refl
  chunks_same rest rest' k same (c ∷ more) t l =
      bind_same (flush env (c ∷ more)) _ _ t
        (λ b e. resumed b (flush env (c ∷ more) t).1 (flush_spent (c ∷ more) t))
    where
      resumed :
          (b : Bool) (u : Machine W)
          → left u.run.world ≤ left t.run.world
          → drain_next env rest b u ≡ drain_next env rest' b u
      resumed true u p = same u (omega arith)
      resumed false u p = refl

  drain_from-enough :
      (n m : ℕ) (start_id : String) (s : Machine W)
      → left s.run.world < n
      → left s.run.world < m
      → drain_from env n start_id s ≡ drain_from env m start_id s
  unfolding drain_from get_worker on_run
  drain_from-enough zero m start_id s h k = absurd (omega arith)
  drain_from-enough (suc n) zero start_id s h k = absurd (omega arith)
  drain_from-enough (suc n) (suc m) start_id s h k =
      bind_same (on_run (Stream.read_new redis formats settings s.worker.consumer start_id)) _ _ s
        (λ chunks e.
          chunks_same _ _ (left s.run.world)
            (λ u l. drain_from-enough n m start_id u (omega arith) (omega arith)) chunks _
            (read_takes s.worker.consumer start_id s.run _ chunks refl e))

  -- The second loop, if the first one got through.
  abbrev both : ℕ → Exec (Machine W) (Unit {0})
  both n = drain_from env n pending_messages >>= λ go_on.
      if go_on then drain_from env n new_messages >> pure tt else pure tt

  both-enough :
      (n m : ℕ) (s : Machine W) → left s.run.world < n → left s.run.world < m → both n s ≡ both m s
  both-enough n m s h k =
      bind_same (drain_from env n pending_messages) _ _ s (λ go_on e.
        second go_on (drain_from env n pending_messages s).1 (
          spent (drain_from env n pending_messages) s
            (drain_from-Spends env left laws (left s.run.world) n pending_messages)))
      ∙ bind_left (drain_from env n pending_messages) (drain_from env m pending_messages) _ s
          (drain_from-enough n m pending_messages s h k)
    where
      second :
          (go_on : Bool) (t : Machine W)
          → left t.run.world ≤ left s.run.world
          → (if go_on then drain_from env n new_messages >> pure tt else pure tt) t
            ≡ (if go_on then drain_from env m new_messages >> pure tt else pure tt) t
      second true t p =
          bind_left (drain_from env n new_messages) (drain_from env m new_messages) _ t
            (drain_from-enough n m new_messages t (omega arith) (omega arith))
      second false t p = refl

  timed :
      (ms : ℕ) (m n : Exec (Machine W) (Unit {0})) (s : Machine W)
      → m (set_deadline env ms s) ≡ n (set_deadline env ms s)
      → try_except (with_timeout env ms m) pipeline_errors (λ e. pure tt) s
        ≡ try_except (with_timeout env ms n) pipeline_errors (λ e. pure tt) s
  unfolding try_except with_timeout
  timed ms m n s e =
      ap
        (λ (p : Result (Unit {0}) × Machine W).
          try_except (with_timeout env ms (λ x. p)) pipeline_errors (λ e. pure tt) s)
        e

  -- Where `asyncio.timeout` sets a deadline that each read brings nearer and at which reads raise,
  -- with `per_ms` reads at most in a millisecond: from any state, and whatever redis and the
  -- database answer, the two loops of `_drain` end by themselves within the drain timeout of the
  -- settings. With fuel above the reads that this time has room for, more fuel changes nothing.
  pub drain-enough :
      (n m : ℕ) (s : Machine W)
      → settings.drain_timeout * per_ms < n
      → settings.drain_timeout * per_ms < m
      → drain env n s ≡ drain env m s
  unfolding drain set_deadline
  drain-enough n m s h k =
      let bound = laws.enters settings.drain_timeout s.run.world in
      timed settings.drain_timeout (both n) (both m) s (
        both-enough n m (set_deadline env settings.drain_timeout s) (omega (arith, bound))
          (omega (arith, bound)))
