-- ===== src/Actions/Executor/Report/Loop.antt =====
-- The report of the loop of `execute` in tg_conductor/actions/executor.py.
use tg_conductor.Base.{
  ℕ, suc, ◌≡◌, refl, sym, ap, ◌∙◌, Bool, true, false, Option, none, some, List, [], ◌∷◌, ◌++◌,
  if◌then◌else◌,
}
use mathlib.Core.List.{append-nil, append_assoc}
use mathlib.Core.Path.{subst}
use tg_conductor.Actions.Steps.{run_action}
use tg_conductor.Workflows.Schema.{DelayRange, ActionStep}
use tg_conductor.Workflows.Schema.Plan.{resolved_timeout}
use tg_conductor.Actions.World.{
  Outcome, StepError, EventBody, action_failed, error, RunEvent, World, Backend, Act, pure, ◌>>◌,
  written, emit,
}
use tg_conductor.Actions.World.Keeps.{IsClosed, modify_ctx-Keeps}
use tg_conductor.Actions.Steps.Keeps.{run_action-Keeps}
use tg_conductor.Actions.Executor.{
  ExecutionResult, step_failed, action_name, wait_before, wait_between, stash, caught, attempt,
  settle, run_steps,
}
use tg_conductor.Actions.Executor.Keeps.{wait_before-Keeps, stash-Keeps, wait_between-Keeps}
use tg_conductor.Actions.Executor.Report.{
  one_failure, failures, failures-append, quiet_body, FailsWith, begun, ran, after_fine,
  after_failure, Explains, IsReport, Silent, Yields, pure-Yields, bind-Yields,
}

module _ {T : Type 0} (b : Backend T) where
  written-silent :
      (e : RunEvent) (o : Outcome (Unit {0})) (u : World T)
      → one_failure e.body ≡ []
      → failures (written b e o u).1.events ≡ failures u.events
  unfolding failures
  written-silent e (Outcome.done x) u h =
      failures-append u.events (e ∷ [])
      ∙ ap (λ (t : List (ℕ × StepError)). failures u.events ++ (t ++ [])) h
      ∙ append-nil (failures u.events)
  written-silent e Outcome.timed_out u h = refl
  written-silent e (Outcome.raised x) u h = refl
  written-silent e Outcome.cancelled u h = refl

  pub Silent-IsClosed : IsClosed b Silent
  unfolding emit
  Silent-IsClosed = record {
    same = λ w. refl;
    both = λ {u} {v} {w} p q. q ∙ p;
    outside = λ w t. refl;
    context = λ w c h. refl;
    emitted = λ level body w h.
        written-silent (record { seq = w.ctx.next_seq; level = level; body = body })
          (b.commit w.outside).0 _ (quiet_body body h);
  }

  written-failing :
      (i : ℕ) (e : StepError) (ev : RunEvent) (o : Outcome (Unit {0})) (u : World T) (x : Unit {0})
      → ev.body ≡ action_failed i e
      → (written b ev o u).0 ≡ Outcome.done x
      → failures (written b ev o u).1.events ≡ failures u.events ++ (i, e) ∷ []
  unfolding failures
  written-failing i e ev (Outcome.done y) u x h k =
      failures-append u.events (ev ∷ [])
      ∙ ap (λ (t : EventBody). failures u.events ++ (one_failure t ++ [])) h
  written-failing i e ev Outcome.timed_out u x h k = absurd cc
  written-failing i e ev (Outcome.raised z) u x h k = absurd cc
  written-failing i e ev Outcome.cancelled u x h k = absurd cc

  -- After the report of a failure, that failure is in the log.
  emit-failing :
      (i : ℕ) (e : StepError) (w : World T) (x : Unit {0})
      → (emit b error (action_failed i e) w).0 ≡ Outcome.done x
      → failures (emit b error (action_failed i e) w).1.events ≡ failures w.events ++ (i, e) ∷ []
  unfolding emit
  emit-failing i e w x k =
      written-failing i e (record { seq = w.ctx.next_seq; level = error; body = action_failed i e })
        (b.commit w.outside).0 _ x refl k

  -- What the handlers make of an outcome.
  Handled : Outcome (Unit {0}) → Option StepError → Type 0
  Handled o none = o ≡ Outcome.done tt
  Handled o (some e) = FailsWith o e

  caught-Handled :
      (o : Outcome (Unit {0})) (v : World T) (a : Option StepError)
      → (caught b o v).0 ≡ Outcome.done a
      → ((caught b o v).1 ≡ v) × Handled o a
  unfolding Handled
  caught-Handled (Outcome.done u) v none k = (refl, refl)
  caught-Handled (Outcome.done u) v (some e) k = absurd cc
  caught-Handled Outcome.timed_out v none k = absurd cc
  caught-Handled Outcome.timed_out v (some e) k = (refl, cc)
  caught-Handled (Outcome.raised m) v none k = absurd cc
  caught-Handled (Outcome.raised m) v (some e) k = (refl, cc)
  caught-Handled Outcome.cancelled v a k = absurd cc

  attempt-Handled :
      (m : Act T (Unit {0})) (w : World T) (a : Option StepError)
      → (attempt b m w).0 ≡ Outcome.done a
      → ((attempt b m w).1 ≡ (m w).1) × Handled (m w).0 a
  unfolding attempt
  attempt-Handled m w a k = caught-Handled (m w).0 (m w).1 a k

  module _ (gap : Option DelayRange) where
    ran-Silent : (i : ℕ) (step : ActionStep) (w : World T) → Silent w (ran b gap i step w).1
    unfolding ran begun
    ran-Silent i step w =
        run_action-Keeps b Silent Silent-IsClosed (resolved_timeout step) step.action _
        ∙ wait_before-Keeps b Silent Silent-IsClosed i step.delay_before _
        ∙ modify_ctx-Keeps b Silent Silent-IsClosed (λ ctx. record ctx { step_index = i })
            (λ x. refl) w

    after_fine-Silent :
        (i : ℕ) (step : ActionStep) (rest : List ActionStep) (w : World T)
        → Silent w (after_fine b gap i step rest w)
    unfolding after_fine
    after_fine-Silent i step rest w =
        wait_between-Keeps b Silent Silent-IsClosed gap rest _
        ∙ stash-Keeps b Silent Silent-IsClosed i step.action _
        ∙ ran-Silent i step w

    -- past a failure that was reported
    after_failure-Yields :
        (i : ℕ) (w : World T) (step : ActionStep) (rest : List ActionStep)
        (before : List (ℕ × StepError)) (next : List (ℕ × StepError) → Act T ExecutionResult)
        (e : StepError) (u : Unit {0}) (goes_on : Bool)
        → step.continue_on_error ≡ goes_on
        → FailsWith (ran b gap i step w).0 e
        → (emit b error (action_failed i e) (ran b gap i step w).1).0 ≡ Outcome.done u
        → ((errs : List (ℕ × StepError)) (v : World T)
            → Yields v (IsReport b gap (suc i) v rest errs) (next errs))
        → Yields
            (emit b error (action_failed i e) (ran b gap i step w).1).1
            (IsReport b gap i w (step ∷ rest) before)
            (if goes_on
              then (wait_between b gap rest >> next (before ++ (i, e) ∷ []))
              else pure (record {
                success = false;
                error = some (step_failed i (action_name step.action) e);
                step_errors = before ++ (i, e) ∷ [];
              }))
    unfolding after_failure
    after_failure-Yields i w step rest before next e u true t fails k h =
        bind-Yields _ (IsReport b gap i w (step ∷ rest) before) (wait_between b gap rest)
          (λ v. next (before ++ (i, e) ∷ []))
          (λ v d r j.
            let rep = h (before ++ (i, e) ∷ []) (after_failure b gap i step rest e w) r j in
            record {
              errs = (i, e) ∷ rep.errs;
              listed = rep.listed ∙ append_assoc before ((i, e) ∷ []) rep.errs;
              explained = Explains.forgiven e fails t rep.explained;
              verdict = rep.verdict;
              in_log =
                  rep.in_log
                  ∙ ap (λ (l : List (ℕ × StepError)). l ++ rep.errs)
                      (wait_between-Keeps b Silent Silent-IsClosed gap rest _
                        ∙ emit-failing i e (ran b gap i step w).1 u k
                        ∙ ap (λ (l : List (ℕ × StepError)). l ++ (i, e) ∷ []) (ran-Silent i step w))
                  ∙ append_assoc (failures w.events) ((i, e) ∷ []) rep.errs;
            })
    after_failure-Yields i w step rest before next e u false f fails k h =
        pure-Yields _ (IsReport b gap i w (step ∷ rest) before)
          (record {
            success = false;
            error = some (step_failed i (action_name step.action) e);
            step_errors = before ++ (i, e) ∷ [];
          })
          (record {
            errs = (i, e) ∷ [];
            listed = refl;
            explained = Explains.fatal e fails f;
            verdict = refl;
            in_log =
                emit-failing i e (ran b gap i step w).1 u k
                ∙ ap (λ (l : List (ℕ × StepError)). l ++ (i, e) ∷ []) (ran-Silent i step w);
          })

    settle-Yields :
        (i : ℕ) (w : World T) (step : ActionStep) (rest : List ActionStep)
        (before : List (ℕ × StepError)) (next : List (ℕ × StepError) → Act T ExecutionResult)
        (ended : Option StepError)
        → Handled (ran b gap i step w).0 ended
        → ((errs : List (ℕ × StepError)) (v : World T)
            → Yields v (IsReport b gap (suc i) v rest errs) (next errs))
        → Yields
            (ran b gap i step w).1
            (IsReport b gap i w (step ∷ rest) before)
            (settle b gap i step rest before next ended)
    unfolding settle Handled after_fine
    settle-Yields i w step rest before next none fine h =
        bind-Yields _ (IsReport b gap i w (step ∷ rest) before) (stash b i step.action) _ (λ u c.
          bind-Yields _ (IsReport b gap i w (step ∷ rest) before) (wait_between b gap rest) _
            (λ v d r k.
              let rep = h before (after_fine b gap i step rest w) r k in
              record {
                errs = rep.errs;
                listed = rep.listed;
                explained = Explains.fine fine rep.explained;
                verdict = rep.verdict;
                in_log =
                    rep.in_log
                    ∙ ap (λ (l : List (ℕ × StepError)). l ++ rep.errs)
                        (after_fine-Silent i step rest w);
              }))
    settle-Yields i w step rest before next (some e) fails h =
        bind-Yields _ (IsReport b gap i w (step ∷ rest) before) (emit b error (action_failed i e)) _
          (λ u k.
            after_failure-Yields i w step rest before next e u step.continue_on_error refl fails k
              h)

    settled-Yields :
        (i : ℕ) (w : World T) (step : ActionStep) (rest : List ActionStep)
        (before : List (ℕ × StepError)) (next : List (ℕ × StepError) → Act T ExecutionResult)
        (ended : Option StepError) (v : World T)
        → v ≡ (ran b gap i step w).1
        → Handled (ran b gap i step w).0 ended
        → ((errs : List (ℕ × StepError)) (v : World T)
            → Yields v (IsReport b gap (suc i) v rest errs) (next errs))
        → Yields v
            (IsReport b gap i w (step ∷ rest) before)
            (settle b gap i step rest before next ended)
    settled-Yields i w step rest before next ended v same handled h =
        subst
          (λ (v : World T).
            Yields v (IsReport b gap i w (step ∷ rest) before)
              (settle b gap i step rest before next ended))
          (sym same) (settle-Yields i w step rest before next ended handled h)

    pub run_steps-Yields :
        (i : ℕ) (w : World T) (steps : List ActionStep) (before : List (ℕ × StepError))
        → Yields w (IsReport b gap i w steps before) (run_steps b gap i steps before)
    unfolding run_steps ran begun
    run_steps-Yields i w [] before =
        pure-Yields w (IsReport b gap i w [] before)
          (record { success = true; error = none; step_errors = before })
          (record {
            errs = [];
            listed = sym (append-nil before);
            explained = Explains.finished;
            verdict = refl;
            in_log = sym (append-nil (failures w.events));
          })
    run_steps-Yields i w (step ∷ rest) before =
        bind-Yields w (IsReport b gap i w (step ∷ rest) before) _ _ (λ u c.
          bind-Yields _ (IsReport b gap i w (step ∷ rest) before)
            (wait_before b i step.delay_before) _
            (λ v d.
              bind-Yields _ (IsReport b gap i w (step ∷ rest) before)
                (attempt b (run_action b (resolved_timeout step) step.action)) _
                (λ ended k.
                  let handled =
                    attempt-Handled (run_action b (resolved_timeout step) step.action)
                      (begun b gap i step w) ended k in
                  settled-Yields i w step rest before (λ errs. run_steps b gap (suc i) rest errs)
                    ended _ handled.0 handled.1 (λ errs v. run_steps-Yields (suc i) v rest errs))))
