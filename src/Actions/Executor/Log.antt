-- ===== src/Actions/Executor/Log.antt =====
-- The event log of a run under tg_conductor/actions/executor.py, and the bus.
use tg_conductor.Base.{ℕ, ◌+◌, ◌≤◌, ◌≡◌, refl, sym, ap, ◌∙◌, List, [], ◌∷◌, ◌++◌, arith}
use mathlib.Core.List.{append-nil, append_assoc}
use tg_conductor.Workflows.Schema.{ActionPlan}
use tg_conductor.Actions.World.{
  Outcome, EventBody, action_failed, EventLevel, error, RunEvent, World, Backend, written, emit,
}
use tg_conductor.Actions.World.Keeps.{IsClosed, Keeps}
use tg_conductor.Actions.Executor.{execute}
use tg_conductor.Actions.Executor.Keeps.{execute-Keeps}

-- Events with rising numbers, from `low` on and below `high`.
abbrev pub Within : ℕ → List RunEvent → ℕ → Type 0
Within low [] high = low ≤ high
Within low (e ∷ es) high = (low ≤ e.seq) × Within (e.seq + 1) es high

-- Between two worlds events were added and none was changed; the added ones were also published, in
-- the same order, and took their numbers from the counter of the context.
pub record Grows {T : Type 0} (u v : World T) : Type 0 where
  pub new : List RunEvent
  pub stored : v.events ≡ u.events ++ new
  pub told : v.published ≡ u.published ++ new
  pub numbered : Within u.ctx.next_seq new v.ctx.next_seq

Within-weaken : (l m h : ℕ) (es : List RunEvent) → l ≤ m → Within m es h → Within l es h
Within-weaken l m h [] le k = omega (arith, le, k)
Within-weaken l m h (e ∷ es) le k = (omega (arith, le, k.0), k.1)

Within-append :
    (l m h : ℕ) (xs ys : List RunEvent) → Within l xs m → Within m ys h → Within l (xs ++ ys) h
Within-append l m h [] ys k j = Within-weaken l m h ys k j
Within-append l m h (x ∷ xs) ys k j = (k.0, Within-append (x.seq + 1) m h xs ys k.1 j)

module _ {T : Type 0} where
  unmoved :
      (u v : World T)
      → v.events ≡ u.events
      → v.published ≡ u.published
      → u.ctx.next_seq ≤ v.ctx.next_seq
      → Grows u v
  unmoved u v e p n = record {
    new = [];
    stored = e ∙ sym (append-nil u.events);
    told = p ∙ sym (append-nil u.published);
    numbered = n;
  }

  trans : {u v w : World T} → Grows u v → Grows v w → Grows u w
  trans {u} {v} {w} g h = record {
    new = g.new ++ h.new;
    stored =
        h.stored
        ∙ ap (λ (es : List RunEvent). es ++ h.new) g.stored
        ∙ append_assoc u.events g.new h.new;
    told =
        h.told
        ∙ ap (λ (es : List RunEvent). es ++ h.new) g.told
        ∙ append_assoc u.published g.new h.new;
    numbered =
        Within-append u.ctx.next_seq v.ctx.next_seq w.ctx.next_seq g.new h.new g.numbered
          h.numbered;
  }

module _ {T : Type 0} (b : Backend T) where
  written-Grows :
      (level : EventLevel) (body : EventBody) (u : World T) (o : Outcome (Unit {0})) (t : T)
      → Grows u
          (written b
            (record { seq = u.ctx.next_seq; level = level; body = body })
            o
            (record u { ctx = record u.ctx { next_seq = u.ctx.next_seq + 1 }; outside = t })).1
  written-Grows level body u (Outcome.done x) t = record {
    new = record { seq = u.ctx.next_seq; level = level; body = body } ∷ [];
    stored = refl;
    told = refl;
    numbered = (omega arith, omega arith);
  }
  written-Grows level body u Outcome.timed_out t = unmoved u _ refl refl (omega arith)
  written-Grows level body u (Outcome.raised x) t = unmoved u _ refl refl (omega arith)
  written-Grows level body u Outcome.cancelled t = unmoved u _ refl refl (omega arith)

  emit-Grows : (level : EventLevel) (body : EventBody) → Keeps Grows (emit b level body)
  unfolding emit
  emit-Grows level body u = written-Grows level body u (b.commit u.outside).0 (b.commit u.outside).1

  Grows-IsClosed : IsClosed b Grows
  Grows-IsClosed = record {
    same = λ w. unmoved w w refl refl (omega arith);
    both = trans;
    outside = λ w t. unmoved w _ refl refl (omega arith);
    context = λ w c h. unmoved w _ refl refl (omega (arith, h));
    emitted = λ level body w h. emit-Grows level body w;
  }

  -- However a run of a plan ends, it only adds events, each published after it is stored and in the
  -- same order, and their numbers rise from the number that was next.
  pub execute-Grows :
      (utcnow : ℕ) (plan : ActionPlan) (w : World T) → Grows w (execute b utcnow plan w).1
  execute-Grows utcnow plan w =
      execute-Keeps b Grows
        (record {
          closed = Grows-IsClosed;
          failing = λ i e. emit-Grows error (action_failed i e);
          rewritten = λ v x. unmoved v _ refl refl (omega arith);
        })
        utcnow plan w
