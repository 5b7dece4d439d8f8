-- ===== src/Scheduler/Repo/Lifecycle.antt =====
-- The lifecycle of a job, as the comment of tg_conductor/scheduler/models.py draws it, against the
-- operations of tg_conductor/scheduler/repo.py.
use tg_conductor.Base.{
  ◌≡◌, refl, ◌∙◌, Bool, true, false, List, [], ◌∷◌, ◌++◌, arith, if◌then◌else◌, All, update,
}
use tg_conductor.Scheduler.Models.{
  JobStatus, pending, running, succeeded, failed, skipped, canceled, is_terminal, JobRow,
}

-- the states that a job may be in some time later: from pending to succeeded or failed it has been
-- running in between
abbrev pub can_move : JobStatus → JobStatus → Bool
can_move pending _ = true
can_move running running = true
can_move running succeeded = true
can_move running failed = true
can_move succeeded succeeded = true
can_move failed failed = true
can_move skipped skipped = true
can_move canceled canceled = true
can_move _ _ = false

-- One row before and after: an arrow of the lifecycle, the same job, and nothing after the end.
pub record IsMove (r r' : JobRow) : Type 0 where
  pub arrow : can_move r.status r'.status ≡ true
  pub same_id : r'.id ≡ r.id
  pub same_owner : r'.owner_id ≡ r.owner_id
  pub same_workflow : r'.workflow_id ≡ r.workflow_id
  pub same_fire_at : r'.fire_at ≡ r.fire_at
  pub ended : is_terminal r.status ≡ true → r' ≡ r

-- The rows of a table, each beside what became of it; more rows may follow.
abbrev pub Rowwise : (JobRow → JobRow → Type 0) → List JobRow → List JobRow → Type 0
Rowwise R [] ys = Unit
Rowwise R (x ∷ xs) [] = ⊥
Rowwise R (x ∷ xs) (y ∷ ys) = R x y × Rowwise R xs ys

stay : (r : JobRow) → IsMove r r
unfolding is_terminal
stay r = record {
  arrow = self r.status;
  same_id = refl;
  same_owner = refl;
  same_workflow = refl;
  same_fire_at = refl;
  ended = λ _. refl;
}
  where
    self : (s : JobStatus) → can_move s s ≡ true
    self pending = refl
    self running = refl
    self succeeded = refl
    self failed = refl
    self skipped = refl
    self canceled = refl

pub Rowwise-refl : (xs : List JobRow) → Rowwise IsMove xs xs
Rowwise-refl [] = tt
Rowwise-refl (x ∷ xs) = (stay x, Rowwise-refl xs)

pub Rowwise-append : (xs ys : List JobRow) → Rowwise IsMove xs (xs ++ ys)
Rowwise-append [] ys = tt
Rowwise-append (x ∷ xs) ys = (stay x, Rowwise-append xs ys)

pub Rowwise-update :
    (p : JobRow → Bool) (f : JobRow → JobRow) (xs : List JobRow)
    → All (λ r. p r ≡ true → IsMove r (f r)) xs
    → Rowwise IsMove xs (update p f xs)
Rowwise-update p f [] h = tt
Rowwise-update p f (x ∷ xs) h = (one (p x) refl, Rowwise-update p f xs h.1)
  where
    one : (b : Bool) → p x ≡ b → IsMove x (if b then f x else x)
    one true e = h.0 e
    one false e = stay x

IsMove-trans : (r s t : JobRow) → IsMove r s → IsMove s t → IsMove r t
unfolding is_terminal
IsMove-trans r s t a b = record {
  arrow = join r.status s.status t.status a.arrow b.arrow;
  same_id = b.same_id ∙ a.same_id;
  same_owner = b.same_owner ∙ a.same_owner;
  same_workflow = b.same_workflow ∙ a.same_workflow;
  same_fire_at = b.same_fire_at ∙ a.same_fire_at;
  ended = λ e. b.ended (subst_end (a.ended e) e) ∙ a.ended e;
}
  where
    join : (x y z : JobStatus) → can_move x y ≡ true → can_move y z ≡ true → can_move x z ≡ true
    join x y z p q = ground arith

    subst_end : s ≡ r → is_terminal r.status ≡ true → is_terminal s.status ≡ true
    subst_end e h = rw e h

pub Rowwise-trans :
    (xs ys zs : List JobRow) → Rowwise IsMove xs ys → Rowwise IsMove ys zs → Rowwise IsMove xs zs
Rowwise-trans [] ys zs a b = tt
Rowwise-trans (x ∷ xs) [] zs a b = absurd a
Rowwise-trans (x ∷ xs) (y ∷ ys) [] a b = absurd b
Rowwise-trans (x ∷ xs) (y ∷ ys) (z ∷ zs) a b =
    (IsMove-trans x y z a.0 b.0, Rowwise-trans xs ys zs a.1 b.1)

pub every : {P : JobRow → Type 0} → ((r : JobRow) → P r) → (xs : List JobRow) → All P xs
every h [] = tt
every h (x ∷ xs) = (h x, every h xs)
