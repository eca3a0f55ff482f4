-- ===== src/UploadService/Batches.antt =====
-- The answer of a batch, by the replies that its tasks got.
use rclone_sync_hub_go_backe.Prelude.{
  has_id, ℕ, Text, true, ◌||◌, ◌==◌, ◌≡◌, refl, sym, ap, ◌∙◌, subst, List, [], ◌∷◌, ◌++◌,
  Bool-cases, ==_iff, inl, inr, arith, Option, none, some, if◌then◌else◌,
}
use rclone_sync_hub_go_backe.UploadService.{
  Reply, accepted, rejected, BatchResult, message_of, answer, run_batch, no_answers, unique_after,
  unique_ids,
}

-- The replies one after the other.
abbrev pub replies :
    {St : Type 0} → (ℕ → St → Reply (Unit {0}) × St) → List ℕ → St → List (ℕ × Reply (Unit {0}))
replies action [] s = []
replies action (id ∷ ids) s = (id, (action id s).0) ∷ replies action ids (action id s).1

abbrev pub state_after : {St : Type 0} → (ℕ → St → Reply (Unit {0}) × St) → List ℕ → St → St
state_after action [] s = s
state_after action (id ∷ ids) s = state_after action ids (action id s).1

abbrev pub accepted_ids : List (ℕ × Reply (Unit {0})) → List ℕ
accepted_ids [] = []
accepted_ids ((id, accepted u) ∷ rs) = id ∷ accepted_ids rs
accepted_ids ((id, rejected f) ∷ rs) = accepted_ids rs

abbrev pub refusal : Reply (Unit {0}) → Option Text
refusal (accepted u) = none
refusal (rejected f) = some (message_of f)

abbrev pub or_else : Option Text → Option Text → Option Text
or_else (some m) o = some m
or_else none o = o

-- The message of the last refusal for a task.
abbrev pub last_refusal : ℕ → List (ℕ × Reply (Unit {0})) → Option Text
last_refusal j [] = none
last_refusal j ((id, x) ∷ rs) = or_else (last_refusal j rs) (if j == id then refusal x else none)

append_one : {A : Type 0} (xs : List A) (a : A) (ys : List A) → (xs ++ a ∷ []) ++ ys ≡ xs ++ a ∷ ys
append_one [] a ys = refl
append_one (x ∷ xs) a ys = ap (λ zs. x ∷ zs) (append_one xs a ys)

append_nil : {A : Type 0} (xs : List A) → xs ++ [] ≡ xs
append_nil [] = refl
append_nil (x ∷ xs) = ap (λ zs. x ∷ zs) (append_nil xs)

abbrev answers : List (ℕ × Reply (Unit {0})) → BatchResult → BatchResult
answers [] r = r
answers ((id, x) ∷ rs) r = answers rs (answer id x r)

answers-ok :
    (rs : List (ℕ × Reply (Unit {0}))) (r : BatchResult)
    → (answers rs r).ok_ids ≡ r.ok_ids ++ accepted_ids rs
answers-ok [] r = sym (append_nil r.ok_ids)
answers-ok ((id, accepted u) ∷ rs) r =
    answers-ok rs (answer id (accepted u) r) ∙ append_one r.ok_ids id (accepted_ids rs)
answers-ok ((id, rejected f) ∷ rs) r = answers-ok rs (answer id (rejected f) r)

answers-failures :
    (rs : List (ℕ × Reply (Unit {0}))) (r : BatchResult) (j : ℕ)
    → (answers rs r).failures j ≡ or_else (last_refusal j rs) (r.failures j)
answers-failures [] r j = refl
answers-failures ((id, x) ∷ rs) r j =
    answers-failures rs (answer id x r) j ∙ by_reply x (last_refusal j rs)
  where
    by_reply :
        (y : Reply (Unit {0})) (o : Option Text)
        → or_else o ((answer id y r).failures j)
          ≡ or_else (or_else o (if j == id then refusal y else none)) (r.failures j)
    by_reply y (some m) = refl
    by_reply (accepted u) none = elim (Bool-cases (j == id)) [
      | inl e ↦ rw e refl
      | inr e ↦ rw e refl
    ]
    by_reply (rejected f) none = elim (Bool-cases (j == id)) [
      | inl e ↦ rw e refl
      | inr e ↦ rw e refl
    ]

module _ {St : Type 0} (action : ℕ → St → Reply (Unit {0}) × St) where
  run_batch-answers :
      (ids : List ℕ) (r : BatchResult) (s : St)
      → run_batch action ids r s ≡ (answers (replies action ids s) r, state_after action ids s)
  unfolding run_batch
  run_batch-answers [] r s = refl
  run_batch-answers (id ∷ ids) r s =
      run_batch-answers ids (answer id (action id s).0 r) (action id s).1

  -- A batch does the action on each task in their order, as often as it is listed. It answers with the
  -- tasks for which it was accepted, in that order, and maps each task to the message of its last
  -- refusal, if there was one, and no other.
  pub run_batch_lem :
      (ids : List ℕ) (s : St)
      → (run_batch action ids no_answers s).0.ok_ids ≡ accepted_ids (replies action ids s)
        × ((j : ℕ)
            → (run_batch action ids no_answers s).0.failures j
              ≡ last_refusal j (replies action ids s))
        × ((run_batch action ids no_answers s).1 ≡ state_after action ids s)
  run_batch_lem ids s = rw (run_batch-answers ids no_answers s) (
    answers-ok (replies action ids s) no_answers,
    (λ j.
        answers-failures (replies action ids s) no_answers j
        ∙ or_else-none (last_refusal j (replies action ids s))),
    refl,
  )
    where
      or_else-none : (o : Option Text) → or_else o none ≡ o
      or_else-none none = refl
      or_else-none (some m) = refl

-- BatchDeleteTasks takes each id once.
seen_same :
    (id j : ℕ) (seen : List ℕ) → has_id id seen ≡ true → (id == j) ≡ true → has_id j seen ≡ true
seen_same id j seen h e = subst (λ i. has_id i seen ≡ true) ((==_iff id j).0 e) h

unique_after-has_id :
    (seen ids : List ℕ) (j : ℕ)
    → (has_id j seen || has_id j (unique_after seen ids)) ≡ (has_id j seen || has_id j ids)
unfolding unique_after
unique_after-has_id seen [] j = refl
unique_after-has_id seen (id ∷ ids) j = elim (Bool-cases (has_id id seen)) [
  | inl e ↦ rw e (known (unique_after-has_id seen ids j) (λ k. seen_same id j seen e k))
  | inr e ↦ rw e (unseen (unique_after-has_id (id ∷ seen) ids j))
]
  where
    known :
        (has_id j seen || has_id j (unique_after seen ids)) ≡ (has_id j seen || has_id j ids)
        → ((id == j) ≡ true → has_id j seen ≡ true)
        → (has_id j seen || has_id j (unique_after seen ids))
          ≡ (has_id j seen || (id == j || has_id j ids))
    known a b = ground arith

    unseen :
        (has_id j (id ∷ seen) || has_id j (unique_after (id ∷ seen) ids))
          ≡ (has_id j (id ∷ seen) || has_id j ids)
        → (has_id j seen || (id == j || has_id j (unique_after (id ∷ seen) ids)))
          ≡ (has_id j seen || (id == j || has_id j ids))
    unseen a = ground arith

-- The ids without repetition are the same ids.
pub unique_ids-has_id : (ids : List ℕ) (j : ℕ) → has_id j (unique_ids ids) ≡ has_id j ids
unique_ids-has_id ids j = unique_after-has_id [] ids j
