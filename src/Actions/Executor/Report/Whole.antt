-- ===== src/Actions/Executor/Report/Whole.antt =====
-- The report of the whole of `execute` in tg_conductor/actions/executor.py.
use tg_conductor.Base.{
  ℕ, ◌-◌, ◌%◌, String, ◌≡◌, refl, sym, ap, ◌∙◌, ◌⊎◌, inl, inr, Option, none, some, List, [], ◌∷◌,
  ◌++◌, length,
}
use tg_conductor.Workflows.Schema.{
  ActionStep, Variant, PickVariant, random, round_robin, ActionPlan,
}
use tg_conductor.Actions.World.{
  Outcome, StepError, World, Backend, Act, pure, raise, draw, modify_ctx, continue, ◌>>=◌,
}
use tg_conductor.Actions.World.Keeps.{modify_ctx-Keeps}
use tg_conductor.Actions.Executor.{
  set_label, ExecutionResult, counter_or_one, nth_variant, bump, chosen_variant, select_steps,
  execute,
}
use tg_conductor.Actions.Executor.Keeps.{select_steps-Keeps, set_label-seq}
use tg_conductor.Actions.Executor.Report.{failures, IsReport, Silent, bind-Yields}
use tg_conductor.Actions.Executor.Report.Loop.{Silent-IsClosed, run_steps-Yields}

-- The steps that a plan may give: its own, or those of one of its variants.
abbrev pub IsChoice : ActionPlan → List ActionStep → Type 0
IsChoice plan steps =
    ((plan.variants ≡ []) × (steps ≡ plan.steps))
    ⊎ ((i : ℕ) × (v : Variant) × (nth_variant plan.variants i ≡ some v) × (steps ≡ v.steps))

module _ {T : Type 0} (b : Backend T) where
  chosen_variant-IsChoice :
      (plan : ActionPlan) (index : ℕ) (o : Option Variant) (w : World T)
      (s : List ActionStep × Option String)
      → nth_variant plan.variants index ≡ o
      → (chosen_variant b index o w).0 ≡ Outcome.done s
      → IsChoice plan s.0
  unfolding pure raise
  chosen_variant-IsChoice plan index none w s e k = absurd cc
  chosen_variant-IsChoice plan index (some v) w s e k = inr (index, v, e, cc)

  continue-value :
      {A B : Type 0} (Q : B → Type 0) (o : Outcome A) (f : A → Act T B)
      → ((a : A) (u : World T) (s : B) → (f a u).0 ≡ Outcome.done s → Q s)
      → (w : World T) (s : B) → (continue o f w).0 ≡ Outcome.done s
      → Q s
  continue-value Q (Outcome.done a) f h w s k = h a w s k
  continue-value Q Outcome.timed_out f h w s k = absurd cc
  continue-value Q (Outcome.raised e) f h w s k = absurd cc
  continue-value Q Outcome.cancelled f h w s k = absurd cc

  -- The steps that are selected are the plan's own or a variant's.
  select_steps-IsChoice :
      (utcnow : ℕ) (plan : ActionPlan) (vs : List Variant) (pick : Option PickVariant)
      → plan.variants ≡ vs
      → (w : World T) (s : List ActionStep × Option String)
      → (select_steps b utcnow plan.steps vs pick w).0 ≡ Outcome.done s
      → IsChoice plan s.0
  unfolding select_steps ◌>>=◌ pure raise
  select_steps-IsChoice utcnow plan [] pick e w s k = inl (e, cc)
  select_steps-IsChoice utcnow plan (v ∷ vs) (some round_robin) e w s k =
      continue-value (λ s. IsChoice plan s.0) (bump b utcnow w).0 _
        (λ counter u s k.
          let index : ℕ = (counter_or_one counter - 1) % length (v ∷ vs) in
          chosen_variant-IsChoice plan index (nth_variant (v ∷ vs) index) u s
            (ap (λ l. nth_variant l index) e) k)
        (bump b utcnow w).1 s k
  select_steps-IsChoice utcnow plan (v ∷ vs) (some random) e w s k =
      continue-value (λ s. IsChoice plan s.0) (draw (b.randrange (length (v ∷ vs))) w).0
        (λ index. chosen_variant b index (nth_variant (v ∷ vs) index))
        (λ index u s k.
          chosen_variant-IsChoice plan index (nth_variant (v ∷ vs) index) u s
            (ap (λ l. nth_variant l index) e) k)
        (draw (b.randrange (length (v ∷ vs))) w).1 s k
  select_steps-IsChoice utcnow plan (v ∷ vs) none e w s k = absurd cc

  -- There are selected steps, the plan's own or one variant's, and the world after this run and its
  -- result fit how they went.
  abbrev pub HasReport : ℕ → ActionPlan → World T → World T → ExecutionResult → Type 0
  HasReport utcnow plan w v r =
      (s : List ActionStep × Option String) × ((select_steps b utcnow plan.steps plan.variants
          plan.pick_variant w).0
        ≡ Outcome.done s)
      × IsChoice plan s.0
      × IsReport b plan.inter_step_delay 0
          (modify_ctx (set_label s.1)
            (select_steps b utcnow plan.steps plan.variants plan.pick_variant w).1).1
          s.0 [] v r
      × (failures v.events ≡ failures w.events ++ r.step_errors)

  -- If a run of a plan ends in a result, then steps were selected, the plan's own or one variant's,
  -- and the result fits how they went from there: the recorded errors are those of the steps that
  -- timed out or raised, in order, all forgiven but at most the last, which ended the run and is the
  -- error of the result; every other step up to it ended without an exception, in the world that the
  -- one before it left; it is a success exactly when there is no such error; and the log gained a
  -- report of just these errors.
  pub execute-IsReport :
      (utcnow : ℕ) (plan : ActionPlan) (w : World T) (r : ExecutionResult)
      → (execute b utcnow plan w).0 ≡ Outcome.done r
      → HasReport utcnow plan w (execute b utcnow plan w).1 r
  unfolding execute
  execute-IsReport utcnow plan w r k =
      bind-Yields w (HasReport utcnow plan w)
        (select_steps b utcnow plan.steps plan.variants plan.pick_variant) _
        (λ s d. bind-Yields _ (HasReport utcnow plan w) (modify_ctx (set_label s.1)) _ (λ u c r' j.
          let report = run_steps-Yields b plan.inter_step_delay 0 _ s.0 [] r' j in
          (
            s,
            d,
            select_steps-IsChoice utcnow plan plan.variants plan.pick_variant refl w s d,
            report,
            report.in_log
                ∙ ap (λ (l : List (ℕ × StepError)). l ++ report.errs)
                    (modify_ctx-Keeps b Silent (Silent-IsClosed b) (set_label s.1)
                        (λ x. set_label-seq s.1 x) _
                      ∙ select_steps-Keeps b Silent (Silent-IsClosed b) (λ u x. refl) utcnow
                          plan.steps plan.variants plan.pick_variant w)
                ∙ ap (λ (l : List (ℕ × StepError)). failures w.events ++ l) (sym report.listed),
          )))
        r k
