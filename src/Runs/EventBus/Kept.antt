-- ===== src/Runs/EventBus/Kept.antt =====
-- One queue of tg_conductor/runs/event_bus.py against the messages that it was given.
use tg_conductor.Base.{
  ℕ, ◌+◌, Bool, true, false, ◌&&◌, ltb, ◌==◌, ◌≤◌, ◌<◌, ◌≡◌, refl, sym, ap, ◌∙◌, ◌≢◌, ◌⊎◌, inl, inr,
  List, [], ◌∷◌, ◌++◌, arith, Bool-cases, length, length-append,
}
use mathlib.Core.List.{append_assoc}
use tg_conductor.Runs.EventBus.{is_full, put}

module _ {M : Type 0} where
  -- The first list is what is left of the second when messages are left out.
  abbrev pub IsSub : List M → List M → Type 0
  IsSub [] ys = Unit
  IsSub (x ∷ xs) [] = ⊥
  IsSub (x ∷ xs) (y ∷ ys) = ((x ≡ y) × IsSub xs ys) ⊎ IsSub (x ∷ xs) ys

  tail-IsSub : (x : M) (xs ys : List M) → IsSub (x ∷ xs) ys → IsSub xs ys
  tail-IsSub x [] ys h = tt
  tail-IsSub x (z ∷ xs) [] h = h
  tail-IsSub x (z ∷ xs) (y ∷ ys) (inl h) = inr h.1
  tail-IsSub x (z ∷ xs) (y ∷ ys) (inr h) = inr (tail-IsSub x (z ∷ xs) ys h)

  drop-IsSub :
      (ls : List M) (x : M) (bs ys : List M) → IsSub (ls ++ x ∷ bs) ys → IsSub (ls ++ bs) ys
  drop-IsSub [] x bs ys h = tail-IsSub x bs ys h
  drop-IsSub (l ∷ ls) x bs [] h = h
  drop-IsSub (l ∷ ls) x bs (y ∷ ys) (inl h) = inl (h.0, drop-IsSub ls x bs ys h.1)
  drop-IsSub (l ∷ ls) x bs (y ∷ ys) (inr h) = inr (drop-IsSub (l ∷ ls) x bs ys h)

  last-IsSub : (m : M) (ys : List M) → IsSub (m ∷ []) (ys ++ m ∷ [])
  last-IsSub m [] = inl (refl, tt)
  last-IsSub m (y ∷ ys) = inr (last-IsSub m ys)

  snoc-IsSub : (xs ys : List M) (m : M) → IsSub xs ys → IsSub (xs ++ m ∷ []) (ys ++ m ∷ [])
  snoc-IsSub [] ys m h = last-IsSub m ys
  snoc-IsSub (x ∷ xs) [] m h = absurd h
  snoc-IsSub (x ∷ xs) (y ∷ ys) m (inl h) = inl (h.0, snoc-IsSub xs ys m h.1)
  snoc-IsSub (x ∷ xs) (y ∷ ys) m (inr h) = inr (snoc-IsSub (x ∷ xs) ys m h)

-- Is a queue of this length at the limit of its size?
abbrev pub is_at_limit : ℕ → ℕ → Bool
is_at_limit size n = ltb 0 size && n == size

abbrev pub count_if : Bool → ℕ → ℕ
count_if true n = n + 1
count_if false n = n

-- What a queue is to the messages of its topic since it was joined and to those it gave out: never
-- longer than its size, the newest of the messages, none given twice or out of order, and none lost
-- but those dropped.
pub record IsKept {M : Type 0} (size dropped : ℕ) (sent got queue : List M) : Type 0 where
  pub bounded : size ≢ 0 → length queue ≤ size
  pub lost : List M
  pub newest : lost ++ queue ≡ sent
  pub ordered : IsSub (got ++ queue) sent
  pub counted : length got + length queue + dropped ≡ length sent

module _ {M : Type 0} (size : ℕ) where
  append_last :
      (m : M) (dropped : ℕ) (sent got queue : List M)
      → (size ≢ 0 → length queue < size)
      → IsKept size dropped sent got queue
      → IsKept size dropped (sent ++ m ∷ []) got (queue ++ m ∷ [])
  append_last m dropped sent got queue room k = record {
    bounded = λ h. omega (arith, room h, length-append queue (m ∷ []));
    lost = k.lost;
    newest = sym (append_assoc k.lost queue (m ∷ [])) ∙ ap (λ (t : List M). t ++ m ∷ []) k.newest;
    ordered =
        rw (sym (append_assoc got queue (m ∷ []))) (snoc-IsSub (got ++ queue) sent m k.ordered);
    counted = omega (arith, k.counted, length-append queue (m ∷ []), length-append sent (m ∷ []));
  }

  drop_first :
      (x : M) (dropped : ℕ) (sent got queue : List M)
      → IsKept size dropped sent got (x ∷ queue)
      → IsKept size (dropped + 1) sent got queue
  drop_first x dropped sent got queue k = record {
    bounded = λ h. omega (arith, k.bounded h);
    lost = k.lost ++ x ∷ [];
    newest = append_assoc k.lost (x ∷ []) queue ∙ k.newest;
    ordered = drop-IsSub got x queue sent k.ordered;
    counted = omega (arith, k.counted);
  }

  pub hand_over :
      (x : M) (dropped : ℕ) (sent got queue : List M)
      → IsKept size dropped sent got (x ∷ queue)
      → IsKept size dropped sent (got ++ x ∷ []) queue
  hand_over x dropped sent got queue k = record {
    bounded = λ h. omega (arith, k.bounded h);
    lost = k.lost ++ x ∷ [];
    newest = append_assoc k.lost (x ∷ []) queue ∙ k.newest;
    ordered = rw (append_assoc got (x ∷ []) queue) k.ordered;
    counted = omega (arith, k.counted, length-append got (x ∷ []));
  }

  pub put-IsKept :
      (m : M) (dropped : ℕ) (sent got queue : List M)
      → IsKept size dropped sent got queue
      → IsKept size
          (count_if (is_at_limit size (length queue)) dropped)
          (sent ++ m ∷ [])
          got
          (put size m queue)
  unfolding put
  put-IsKept m dropped sent got [] k =
      let nothing : List M = [] in
      let empty : is_full size nothing ≡ false = ground arith in
      let below : is_at_limit size 0 ≡ false = ground arith in
      rw (empty, below) (append_last m dropped sent got [] (λ h. omega (arith, h)) k)
  put-IsKept m dropped sent got (x ∷ queue) k = elim (Bool-cases (is_full size (x ∷ queue))) [
    | inl e ↦
        let at_limit : is_at_limit size (length (x ∷ queue)) ≡ true = at_size e k.bounded in
        rw (e, at_limit)
          (append_last m (dropped + 1) sent got queue (λ h. omega (arith, k.bounded h))
            (drop_first x dropped sent got queue k))
    | inr e ↦
        let below : is_at_limit size (length (x ∷ queue)) ≡ false = ground (arith, e) in
        rw (e, below) (append_last m dropped sent got (x ∷ queue) (λ h. ground (arith, h, e)) k)
  ]
    where
      at_size :
          is_full size (x ∷ queue) ≡ true
          → (size ≢ 0 → length (x ∷ queue) ≤ size)
          → is_at_limit size (length (x ∷ queue)) ≡ true
      at_size e bounded = ground (arith, e, bounded)
