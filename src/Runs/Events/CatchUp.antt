-- ===== src/Runs/Events/CatchUp.antt =====
-- What the catch-up of `stream_events` in tg_conductor/api/routes/runs.py sends.
use tg_conductor.Base.{
  ℕ, zero, suc, ◌+◌, ◌≤◌, ◌<◌, ◌≡◌, refl, sym, ap, ◌∙◌, inl, inr, Bool, true, false, ◌&&◌, Option,
  none, some, List, [], ◌∷◌, ◌++◌, arith, ltb, ◌==◌, Bool-cases, length, take, any, filter,
  insert_by, sort_by,
}
use mathlib.Core.List.{append_assoc}
use tg_conductor.Runs.Events.{
  EventRow, is_newer, seq_of, list_events, is_end, last_seq, catch_up_pages,
}

-- The numbers rise, from `low` on.
abbrev pub Rising : ℕ → List EventRow → Type 0
Rising low [] = Unit
Rising low (r ∷ rows) = (low ≤ r.event.seq) × Rising (r.event.seq + 1) rows

abbrev drop : ℕ → List EventRow → List EventRow
drop zero rows = rows
drop (suc n) [] = []
drop (suc n) (r ∷ rows) = drop n rows

abbrev pub from : Option ℕ → ℕ
from none = 0
from (some c) = c + 1

take-drop : (n : ℕ) (rows : List EventRow) → take n rows ++ drop n rows ≡ rows
take-drop zero rows = refl
take-drop (suc n) [] = refl
take-drop (suc n) (r ∷ rows) = ap (λ (t : List EventRow). r ∷ t) (take-drop n rows)

short_page : (n : ℕ) (rows : List EventRow) → length (take n rows) < n → drop n rows ≡ []
short_page zero rows h = absurd (omega (arith, h))
short_page (suc n) [] h = refl
short_page (suc n) (r ∷ rows) h = short_page n rows (omega (arith, h))

length-drop : (n : ℕ) (rows : List EventRow) → length (drop n rows) ≤ length rows
length-drop zero rows = omega arith
length-drop (suc n) [] = omega arith
length-drop (suc n) (r ∷ rows) = omega (arith, length-drop n rows)

sort_by-Rising : (low : ℕ) (rows : List EventRow) → Rising low rows → sort_by seq_of rows ≡ rows
sort_by-Rising low [] h = refl
sort_by-Rising low (r ∷ rows) h =
    rw (sort_by-Rising (r.event.seq + 1) rows h.1) (first_stays r rows h.1)
  where
    first_stays :
        (r : EventRow) (rows : List EventRow)
        → Rising (r.event.seq + 1) rows
        → insert_by seq_of r rows ≡ r ∷ rows
    first_stays r [] k = refl
    first_stays r (x ∷ xs) k = ground (arith, k.0)

-- Past the cursor nothing is left out, and rows up to the last of a page are.
newer_all :
    (c low : ℕ) (rows : List EventRow)
    → c < low
    → Rising low rows
    → filter (is_newer (some c)) rows ≡ rows
newer_all c low [] le h = refl
newer_all c low (r ∷ rows) le h =
    let yes : ltb c r.event.seq ≡ true = ground (arith, le, h.0) in
    rw yes (
      ap (λ (t : List EventRow). r ∷ t)
        (newer_all c (r.event.seq + 1) rows (omega (arith, le, h.0)) h.1))

last_seq-ge :
    (r : EventRow) (rows : List EventRow) (n : ℕ)
    → Rising (r.event.seq + 1) rows
    → r.event.seq ≤ last_seq r (take n rows)
last_seq-ge r rows zero h = omega arith
last_seq-ge r [] (suc n) h = omega arith
last_seq-ge r (x ∷ xs) (suc n) h = omega (arith, h.0, last_seq-ge x xs n h.1)

-- After a page, what is newer is the rest.
newer_after_page :
    (n : ℕ) (r : EventRow) (rows : List EventRow)
    → Rising (r.event.seq + 1) rows
    → filter (is_newer (some (last_seq r (take n rows)))) (r ∷ rows) ≡ drop n rows
newer_after_page n r rows h =
    let no : ltb (last_seq r (take n rows)) r.event.seq ≡ false =
      ground (arith, last_seq-ge r rows n h) in
    rw no (tail_after n r rows h)
  where
    tail_after :
        (n : ℕ) (r : EventRow) (rows : List EventRow)
        → Rising (r.event.seq + 1) rows
        → filter (is_newer (some (last_seq r (take n rows)))) rows ≡ drop n rows
    tail_after zero r rows h = newer_all r.event.seq (r.event.seq + 1) rows (omega arith) h
    tail_after (suc n) r [] h = refl
    tail_after (suc n) r (x ∷ xs) h =
        let no : ltb (last_seq x (take n xs)) x.event.seq ≡ false =
          ground (arith, last_seq-ge x xs n h.1) in
        rw no (tail_after n x xs h.1)

Rising-drop :
    (n : ℕ) (r : EventRow) (rows : List EventRow)
    → Rising (r.event.seq + 1) rows
    → Rising (last_seq r (take n rows) + 1) (drop n rows)
Rising-drop zero r rows h = h
Rising-drop (suc n) r [] h = tt
Rising-drop (suc n) r (x ∷ xs) h = Rising-drop n x xs h.1

any-append_right : (xs ys : List EventRow) → any is_end ys ≡ true → any is_end (xs ++ ys) ≡ true
any-append_right [] ys h = h
any-append_right (x ∷ xs) ys h = ground (arith, any-append_right xs ys h)

-- A later cursor among the rows past an earlier one.
refine :
    (mine : EventRow → Bool) (since : Option ℕ) (c : ℕ) (rows : List EventRow)
    → from since ≤ c
    → filter (λ r. mine r && is_newer (some c) r) rows
      ≡ filter (is_newer (some c)) (filter (λ r. mine r && is_newer since r) rows)
refine mine since c [] le = refl
refine mine none c (r ∷ rows) le = ground (arith, le, refine mine none c rows le)
refine mine (some d) c (r ∷ rows) le = ground (arith, le, refine mine (some d) c rows le)

-- What was sent of the rows that were due: a beginning of them, and all unless the run's end was sent.
pub record IsCaughtUp (due : List EventRow) (sent : List EventRow × Bool) : Type 0 where
  pub left : List EventRow
  pub in_order : sent.0 ++ left ≡ due
  pub complete : sent.1 ≡ false → left ≡ []
  pub at_end : sent.1 ≡ true → any is_end sent.0 ≡ true

module _ (run_id owner_id p : ℕ) (rows : List EventRow) where
  abbrev mine : EventRow → Bool
  mine r = r.run_id == run_id && r.owner_id == owner_id

  abbrev pub due_after : Option ℕ → List EventRow
  due_after since =
      filter (λ r. r.run_id == run_id && r.owner_id == owner_id && is_newer since r) rows

  page_eq :
      (since : Option ℕ) (low : ℕ) (due : List EventRow)
      → due_after since ≡ due
      → Rising low due
      → list_events run_id owner_id since (suc p) rows ≡ take (suc p) due
  unfolding list_events
  page_eq since low due e h = rw e (rw (sort_by-Rising low due h) refl)

  pages_lem :
      (fuel : ℕ) (since : Option ℕ) (low : ℕ) (due : List EventRow)
      → due_after since ≡ due
      → Rising low due
      → from since ≤ low
      → length due < fuel
      → IsCaughtUp due (catch_up_pages run_id owner_id (suc p) rows fuel since)
  unfolding catch_up_pages
  pages_lem zero since low due e h le enough = absurd (omega (arith, enough))
  pages_lem (suc fuel) since low [] e h le enough =
      rw (page_eq since low [] e h)
        (record { left = []; in_order = refl; complete = λ _. refl; at_end = λ k. absurd cc })
  pages_lem (suc fuel) since low (r ∷ due) e h le enough =
      let batch : List EventRow = take p due in
      let c : ℕ = last_seq r batch in
      let past : from since ≤ c = omega (arith, le, h.0, last_seq-ge r due p h.1) in
      let next : due_after (some c) ≡ drop p due =
        refine mine since c rows past
        ∙ ap (λ (t : List EventRow). filter (is_newer (some c)) t) e
        ∙ newer_after_page p r due h.1 in
      rw (page_eq since low (r ∷ due) e h) (elim (Bool-cases (any is_end (r ∷ batch))) [
        | inl end ↦ rw end (record {
          left = drop p due;
          in_order = ap (λ (t : List EventRow). r ∷ t) (take-drop p due);
          complete = λ k. absurd cc;
          at_end = λ _. end;
        })
        | inr open_ ↦ elim (Bool-cases (ltb (length (r ∷ batch)) (suc p))) [
          | inl short ↦
              let nothing : drop p due ≡ [] = short_page p due (ground (arith, short)) in
              rw open_ (
                rw short (record {
                  left = [];
                  in_order =
                      ap (λ (t : List EventRow). r ∷ t)
                        (ap (λ (t : List EventRow). batch ++ t) (sym nothing) ∙ take-drop p due);
                  complete = λ _. refl;
                  at_end = λ k. absurd cc;
                }))
          | inr full ↦
              let ih =
                pages_lem fuel (some c) (c + 1) (drop p due) next (Rising-drop p r due h.1)
                  (omega arith) (omega (arith, enough, length-drop p due)) in
              rw open_ (
                rw full (record {
                  left = ih.left;
                  in_order =
                      ap (λ (t : List EventRow). r ∷ t)
                        (append_assoc batch
                            (catch_up_pages run_id owner_id (suc p) rows fuel (some c)).0 ih.left
                          ∙ ap (λ (t : List EventRow). batch ++ t) ih.in_order
                          ∙ take-drop p due);
                  complete = ih.complete;
                  at_end = λ k.
                      any-append_right (r ∷ batch)
                        (catch_up_pages run_id owner_id (suc p) rows fuel (some c)).0 (ih.at_end k);
                }))
        ]
      ])

  -- If the rows of the run past the cursor are stored in rising order and the fuel exceeds their number,
  -- then the catch-up, with pages of at least one row, sends these rows in their order, from the first
  -- on, each once, and all of them unless it sent the run's end.
  pub catch_up_pages-IsCaughtUp :
      (fuel : ℕ) (since : Option ℕ)
      → Rising (from since) (due_after since)
      → length (due_after since) < fuel
      → IsCaughtUp (due_after since) (catch_up_pages run_id owner_id (suc p) rows fuel since)
  catch_up_pages-IsCaughtUp fuel since h enough =
      pages_lem fuel since (from since) (due_after since) refl h (omega arith) enough
