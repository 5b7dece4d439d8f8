-- ===== src/Runs/EventBus/Stream.antt =====
-- What a subscriber sees of its topic under tg_conductor/runs/event_bus.py.
use tg_conductor.Base.{
  ℕ, length, ◌&&◌, String, ◌≡◌, refl, sym, ap, ◌∙◌, ◌≢◌, inl, inr, true, false, Option, none, some,
  List, [], ◌∷◌, ◌++◌, arith, str_eq, ◌==◌, if◌then◌else◌, Bool-cases, if-true, if-false,
}
use mathlib.Core.Path.{subst}
use tg_conductor.Runs.EventBus.{
  Bus, put, publish, subscribe, unsubscribe, queue_of, took, behind, receive,
}
use tg_conductor.Runs.EventBus.Kept.{is_at_limit, count_if, IsKept, hand_over, put-IsKept}

module _ {M : Type 0} (size : ℕ) where
  -- Another subscriber's queue, or one that is not there, has nothing to do with a message.
  abbrev told : String → M → String × List M → String × List M
  told topic m (t, queue) = (t, (if str_eq t topic then put size m queue else queue))

  abbrev told_if : String → M → Option (String × List M) → Option (String × List M)
  told_if topic m none = none
  told_if topic m (some s) = some (told topic m s)

  queue_of-publish :
      (w : ℕ) (topic : String) (m : M) (bus : Bus M)
      → queue_of w (publish size topic m bus) ≡ told_if topic m (queue_of w bus)
  unfolding queue_of publish
  queue_of-publish w topic m [] = refl
  queue_of-publish w topic m ((i, t, queue) ∷ bus) = elim (Bool-cases (i == w)) [
    | inl e ↦ rw e refl
    | inr e ↦ rw e (queue_of-publish w topic m bus)
  ]

module _ {M : Type 0} where
  queue_of-subscribe_self :
      (w : ℕ) (topic : String) (bus : Bus M)
      → queue_of w bus ≡ none
      → queue_of w (subscribe w topic bus) ≡ some (topic, [])
  unfolding queue_of subscribe
  queue_of-subscribe_self w topic [] h = if-true (w == w) _ _ (ground arith)
  queue_of-subscribe_self w topic ((i, t, queue) ∷ bus) h = elim (Bool-cases (i == w)) [
    | inl e ↦ absurd (ground (arith, e, h))
    | inr e ↦ rw e (queue_of-subscribe_self w topic bus (ground (arith, e, h)))
  ]

  queue_of-subscribe_other :
      (w id : ℕ) (topic : String) (bus : Bus M) (s : String × List M)
      → queue_of w bus ≡ some s
      → queue_of w (subscribe id topic bus) ≡ some s
  unfolding queue_of subscribe
  queue_of-subscribe_other w id topic [] s h = absurd cc
  queue_of-subscribe_other w id topic ((i, t, queue) ∷ bus) s h = elim (Bool-cases (i == w)) [
    | inl e ↦ rw e (ground (arith, e, h))
    | inr e ↦ rw e (queue_of-subscribe_other w id topic bus s (ground (arith, e, h)))
  ]

  queue_of-unsubscribe_other :
      (w id : ℕ) (bus : Bus M) → id ≢ w → queue_of w (unsubscribe id bus) ≡ queue_of w bus
  unfolding queue_of unsubscribe
  queue_of-unsubscribe_other w id [] n = refl
  queue_of-unsubscribe_other w id ((i, t, queue) ∷ bus) n =
      ground (arith, n, queue_of-unsubscribe_other w id bus n)

  -- What receiving does: another's queue stays, and one's own gave its head.
  abbrev Fits : ℕ → Bus M → Option (M × Bus M) → Type 0
  Fits id bus none = Unit
  Fits id bus (some (m, bus')) =
      ((w : ℕ) → id ≢ w → queue_of w bus' ≡ queue_of w bus)
      × (t : String) × (queue : List M) × (queue_of id bus ≡ some (t, m ∷ queue))
      × (queue_of id bus' ≡ some (t, queue))

  took-Fits :
      (id i : ℕ) (t : String) (queue : List M) (bus : Bus M)
      → (i == id) ≡ true
      → Fits id ((i, t, queue) ∷ bus) (took i t queue bus)
  unfolding queue_of
  took-Fits id i t [] bus e = tt
  took-Fits id i t (m ∷ queue) bus e = (
    λ w n. let skip : (i == w) ≡ false = ground (arith, e, n) in rw skip refl,
    t,
    queue,
    if-true (i == id) _ _ e,
    if-true (i == id) _ _ e,
  )

  behind-Fits :
      (id i : ℕ) (t : String) (queue : List M) (bus : Bus M) (r : Option (M × Bus M))
      → (i == id) ≡ false
      → Fits id bus r
      → Fits id ((i, t, queue) ∷ bus) (behind i t queue r)
  unfolding queue_of
  behind-Fits id i t queue bus none e k = tt
  behind-Fits id i t queue bus (some (m, bus')) e k = (
    λ w n. ap (λ (o : Option (String × List M)). if i == w then some (t, queue) else o) (k.0 w n),
    k.1,
    k.2,
    if-false (i == id) _ _ e ∙ k.3,
    if-false (i == id) _ _ e ∙ k.4,
  )

  receive-Fits : (id : ℕ) (bus : Bus M) → Fits id bus (receive id bus)
  unfolding receive
  receive-Fits id [] = tt
  receive-Fits id ((i, t, queue) ∷ bus) = elim (Bool-cases (i == id)) [
    | inl e ↦ rw e (took-Fits id i t queue bus e)
    | inr e ↦ rw e (behind-Fits id i t queue bus (receive id bus) e (receive-Fits id bus))
  ]

abbrev pub held : {M : Type 0} → Option (String × List M) → ℕ
held none = 0
held (some s) = length s.1

-- What the subscriber `w` of a topic goes through: it joins, anything is published, it receives, and
-- others join, receive and leave. The lists are what its topic was sent since, and what it received;
-- the number counts the messages of its topic that came when its queue was at its limit.
pub data Life {M : Type 0} (size w : ℕ) (topic : String)
    : Bus M → List M → List M → ℕ → Type 0 where
  joined : (bus : Bus M) → queue_of w bus ≡ none → Life size w topic (subscribe w topic bus) [] [] 0
  published :
      {bus : Bus M} {sent got : List M} {dropped : ℕ} (to : String) (m : M)
      → Life size w topic bus sent got dropped
      → Life size w topic
          (publish size to m bus)
          (if str_eq topic to then sent ++ m ∷ [] else sent)
          got
          (count_if (str_eq topic to && is_at_limit size (held (queue_of w bus))) dropped)
  received :
      {bus bus' : Bus M} {sent got : List M} {dropped : ℕ} (m : M)
      → receive w bus ≡ some (m, bus')
      → Life size w topic bus sent got dropped
      → Life size w topic bus' sent (got ++ m ∷ []) dropped
  other_joined :
      {bus : Bus M} {sent got : List M} {dropped : ℕ} (id : ℕ) (to : String)
      → Life size w topic bus sent got dropped
      → Life size w topic (subscribe id to bus) sent got dropped
  other_received :
      {bus bus' : Bus M} {sent got : List M} {dropped : ℕ} (id : ℕ) (m : M)
      → id ≢ w
      → receive id bus ≡ some (m, bus')
      → Life size w topic bus sent got dropped
      → Life size w topic bus' sent got dropped
  other_left :
      {bus : Bus M} {sent got : List M} {dropped : ℕ} (id : ℕ)
      → id ≢ w
      → Life size w topic bus sent got dropped
      → Life size w topic (unsubscribe id bus) sent got dropped

pub record IsServed {M : Type 0} (size w : ℕ) (topic : String) (bus : Bus M) (sent got : List M)
    (dropped : ℕ) : Type 0 where
  pub queue : List M
  pub found : queue_of w bus ≡ some (topic, queue)
  pub kept : IsKept size dropped sent got queue

module _ {M : Type 0} where
  abbrev topic_in : String → Option (String × List M) → String
  topic_in t none = t
  topic_in t (some s) = s.0

  abbrev queue_in : List M → Option (String × List M) → List M
  queue_in q none = q
  queue_in q (some s) = s.1

module _ {M : Type 0} (size w : ℕ) (topic : String) where
  publish-IsServed :
      (bus : Bus M) (sent got : List M) (dropped : ℕ) (to : String) (m : M)
      → IsServed size w topic bus sent got dropped
      → IsServed size w topic
          (publish size to m bus)
          (if str_eq topic to then sent ++ m ∷ [] else sent)
          got
          (count_if (str_eq topic to && is_at_limit size (held (queue_of w bus))) dropped)
  publish-IsServed bus sent got dropped to m s =
      let moved = queue_of-publish size w to m bus ∙ ap (told_if size to m) s.found in
      elim (Bool-cases (str_eq topic to)) [
        | inl e ↦
            rw (e, s.found)
              (record {
                queue = put size m s.queue;
                found =
                    moved ∙ ap (λ (q : List M). some (topic, q)) (if-true (str_eq topic to) _ _ e);
                kept = put-IsKept size m dropped sent got s.queue s.kept;
              })
        | inr e ↦ rw e (record {
          queue = s.queue;
          found = moved ∙ ap (λ (q : List M). some (topic, q)) (if-false (str_eq topic to) _ _ e);
          kept = s.kept;
        })
      ]

  receive-IsServed :
      (bus bus' : Bus M) (sent got : List M) (dropped : ℕ) (m : M)
      → receive w bus ≡ some (m, bus')
      → IsServed size w topic bus sent got dropped
      → IsServed size w topic bus' sent (got ++ m ∷ []) dropped
  receive-IsServed bus bus' sent got dropped m h s =
      let fits : Fits w bus (some (m, bus')) = subst (Fits w bus) h (receive-Fits w bus) in
      let same = sym s.found ∙ fits.3 in
      let head : s.queue ≡ m ∷ fits.2 = ap (queue_in s.queue) same in
      record {
        queue = fits.2;
        found = fits.4 ∙ ap (λ (t : String). some (t, fits.2)) (sym (ap (topic_in topic) same));
        kept =
            hand_over size m dropped sent got fits.2
              (subst (λ (q : List M). IsKept size dropped sent got q) head s.kept);
      }

  -- However long it lives, its queue is never longer than its size, holds the newest messages of its
  -- topic, and no message of another; what it received and what it holds are messages of its topic in
  -- their order, none of them twice; and they are all of them but one for each message that came when
  -- its queue was at its limit, and a queue of size 0 has none.
  pub subscriber-IsServed :
      {bus : Bus M} {sent got : List M} {dropped : ℕ}
      → Life size w topic bus sent got dropped
      → IsServed size w topic bus sent got dropped
  subscriber-IsServed (joined bus n) = record {
    queue = [];
    found = queue_of-subscribe_self w topic bus n;
    kept = record {
      bounded = λ h. omega arith;
      lost = [];
      newest = refl;
      ordered = tt;
      counted = refl;
    };
  }
  subscriber-IsServed (published {bus} {sent} {got} {dropped} to m l) =
      publish-IsServed bus sent got dropped to m (subscriber-IsServed l)
  subscriber-IsServed (received {bus} {bus'} {sent} {got} {dropped} m h l) =
      receive-IsServed bus bus' sent got dropped m h (subscriber-IsServed l)
  subscriber-IsServed (other_joined {bus} id to l) =
      let s = subscriber-IsServed l in
      record {
        queue = s.queue;
        found = queue_of-subscribe_other w id to bus (topic, s.queue) s.found;
        kept = s.kept;
      }
  subscriber-IsServed (other_received {bus} {bus'} id m n h l) =
      let s = subscriber-IsServed l in
      let fits : Fits id bus (some (m, bus')) = subst (Fits id bus) h (receive-Fits id bus) in
      record { queue = s.queue; found = fits.0 w n ∙ s.found; kept = s.kept }
  subscriber-IsServed (other_left {bus} id n l) =
      let s = subscriber-IsServed l in
      record {
        queue = s.queue;
        found = queue_of-unsubscribe_other w id bus n ∙ s.found;
        kept = s.kept;
      }
