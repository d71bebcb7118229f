-- ===== src/Trace/Rules.antt =====
-- Rules for calls on the world, for predicates on the record of calls.
use geo_device.Prelude.{true, false, ◌∷◌}
use geo_device.Exec.{Exec, Result, ok, raised, is_ok}
use geo_device.Exec.Triple.{Triple, Outcome}
use geo_device.Errors.{Exn}
use geo_device.Trace.{Run, Trace, Event, perform, silent}

module _ {W A : Type 0} where
  -- The triple with a predicate on the trace before, on the value and the trace after a return,
  -- and on the trace after a raise.
  abbrev pub Runs :
      (Trace → Type 0) → Exec (Run W) A → (A → Trace → Type 0) → (Trace → Type 0) → Type 0
  Runs F m G H = Triple (λ r. F r.trace) m (λ a r. G a r.trace) (λ e r. H r.trace)

  pub perform_rule :
      (F : Trace → Type 0) (G : A → Trace → Type 0) (H : Trace → Type 0) (event : Result A → Event)
      (call : Exec W A)
      → ((t : Trace) (a : A) → F t → G a ((event (ok a), true) ∷ t))
      → ((t : Trace) (e : Exn) → F t → H ((event (raised e), false) ∷ t))
      → Runs F (perform event call) G H
  unfolding perform
  perform_rule F G H event call good bad = record {
    at = λ r f. go r.trace (call r.world).0 (call r.world).1 f;
  }
    where
      go :
          (t : Trace) (result : Result A) (w : W)
          → F t
          → Outcome {S = Run W}
              (λ a r. G a r.trace)
              (λ e r. H r.trace)
              result
              (record { world = w; trace = (event result, is_ok result) ∷ t })
      go t (ok a) w f = good t a f
      go t (raised e) w f = bad t e f

  pub silent_rule : (F : Trace → Type 0) (call : Exec W A) → Runs F (silent call) (λ a. F) F
  unfolding silent
  silent_rule F call = record { at = λ r f. go r.trace (call r.world).0 (call r.world).1 f }
    where
      go :
          (t : Trace) (result : Result A) (w : W)
          → F t
          → Outcome {S = Run W}
              (λ a r. F r.trace)
              (λ e r. F r.trace)
              result
              (record { world = w; trace = t })
      go t (ok a) w f = f
      go t (raised e) w f = f
