-- ===== src/Actions/World/Keeps.antt =====
-- Relations between the world before and after, and what keeps them, for tg_conductor/actions.
use tg_conductor.Base.{String, ◌≡◌, Bool, true, false}
use tg_conductor.Actions.World.{
  Outcome, EventBody, action_failed, EventLevel, Ctx, World, Backend, Act, pure, raise, gets, lift,
  await, draw, modify_ctx, continue, ◌>>=◌, emit,
}

abbrev pub is_failure : EventBody → Bool
is_failure (action_failed i e) = true
is_failure _ = false

-- What a relation is closed under: nothing at all, one thing after another, what the outside does, a
-- change of the context but for its next number, and an event that reports no failure.
pub record IsClosed {T : Type 0} (b : Backend T) (R : World T → World T → Type 0) : Type 0 where
  pub same : (w : World T) → R w w
  pub both : {u v w : World T} → R u v → R v w → R u w
  pub outside : (w : World T) (t : T) → R w (record w { outside = t })
  pub context : (w : World T) (c : Ctx) → c.next_seq ≡ w.ctx.next_seq → R w (record w { ctx = c })
  pub emitted :
      (level : EventLevel) (body : EventBody) (w : World T)
      → is_failure body ≡ false
      → R w (emit b level body w).1

module _ {T : Type 0} where
  abbrev pub Keeps : {A : Type 0} → (World T → World T → Type 0) → Act T A → Type 0
  Keeps R m = (w : World T) → R w (m w).1

module _ {T : Type 0} (b : Backend T) (R : World T → World T → Type 0) (c : IsClosed b R) where
  pub pure-Keeps : {A : Type 0} (a : A) → Keeps R (pure a)
  unfolding pure
  pure-Keeps a w = c.same w

  pub raise-Keeps : (A : Type 0) (e : String) → Keeps {A = A} R (raise e)
  unfolding raise
  raise-Keeps A e w = c.same w

  pub gets-Keeps : {A : Type 0} (f : World T → A) → Keeps R (gets f)
  unfolding gets
  gets-Keeps f w = c.same w

  pub lift-Keeps : {A : Type 0} (o : Outcome A) → Keeps R (lift o)
  unfolding lift
  lift-Keeps o w = c.same w

  pub await-Keeps : {A : Type 0} (call : T → Outcome A × T) → Keeps R (await call)
  unfolding await
  await-Keeps call w = c.outside w (call w.outside).1

  pub draw-Keeps : {A : Type 0} (call : T → A × T) → Keeps R (draw call)
  unfolding draw
  draw-Keeps call w = c.outside w (call w.outside).1

  pub modify_ctx-Keeps :
      (f : Ctx → Ctx) → ((x : Ctx) → (f x).next_seq ≡ x.next_seq) → Keeps R (modify_ctx f)
  unfolding modify_ctx
  modify_ctx-Keeps f h w = c.context w (f w.ctx) (h w.ctx)

  pub emit-Keeps :
      (level : EventLevel) (body : EventBody)
      → is_failure body ≡ false
      → Keeps R (emit b level body)
  emit-Keeps level body h w = c.emitted level body w h

  continue-Keeps :
      {A B : Type 0} (o : Outcome A) (f : A → Act T B)
      → ((a : A) → Keeps R (f a))
      → Keeps R (continue o f)
  continue-Keeps (Outcome.done a) f h w = h a w
  continue-Keeps Outcome.timed_out f h w = c.same w
  continue-Keeps (Outcome.raised e) f h w = c.same w
  continue-Keeps Outcome.cancelled f h w = c.same w

  -- One action and then the next keep what both keep.
  pub bind-Keeps :
      {A B : Type 0} (m : Act T A) (f : A → Act T B)
      → Keeps R m
      → ((a : A) → Keeps R (f a))
      → Keeps R (m >>= f)
  unfolding ◌>>=◌
  bind-Keeps m f h k w = c.both (h w) (continue-Keeps (m w).0 f k (m w).1)
