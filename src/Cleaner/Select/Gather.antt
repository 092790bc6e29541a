-- ===== src/Cleaner/Select/Gather.antt =====
-- The candidates that the second pass of nilfs_cleanerd_select_segments of sbin/cleanerd.c gathers from
-- one answer.
use mathlib.Core.List.{append-nil, append_assoc}
use nilfs_utils.Base.{
  ℕ, zero, suc, ◌+◌, ◌-◌, ◌≡◌, refl, sym, ap, subst, ◌∙◌, inl, inr, Bool, true, false, ◌&&◌,
  if◌then◌else◌, Bool-cases, arith, List, [], ◌∷◌, ◌++◌, Result, ok, length, take, drop, ltb, ℤ,
}
use nilfs_utils.Base.Cut.{take-append_le, take-length, drop-append}
use nilfs_utils.Vector.{Vector, IsVector, contents, push, get_size, delete_elements, or_unchanged}
use nilfs_utils.Vector.Enlarge.{Answers}
use nilfs_utils.Vector.Laws.{push-IsPushed, IsPushed, length-contents}
use nilfs_utils.Vector.Edit.{delete_elements-IsDeleted}
use nilfs_utils.Segment.Bytes.{Safe, Safe-bind}
use nilfs_utils.Gc.Select.{Suinfo, suinfo_reclaimable}
use nilfs_utils.Cleaner.{Sustat}
use nilfs_utils.Cleaner.Select.{Candidate, Policy, oldest_of, add_candidate, add_candidates}

-- The candidates of a table of segments, numbered from `n`, by the policy.
module _ {S : Type 0} (policy : Policy S) (sustat : Sustat) (now prottime : ℤ) where
  abbrev pub eligible : List Suinfo → ℕ → List (Candidate S)
  eligible [] n = []
  eligible (si ∷ sis) n =
      if suinfo_reclaimable si && (policy.evaluate sustat si n now prottime).1
      then (policy.evaluate sustat si n now prottime).0 ∷ eligible sis (suc n)
      else eligible sis (suc n)

  pub eligible-append :
      (k : ℕ) (sis : List Suinfo) (n : ℕ)
      → eligible (take k sis) n ++ eligible (drop k sis) (n + length (take k sis)) ≡ eligible sis n
  eligible-append zero sis n = ap (eligible sis) (omega arith)
  eligible-append (suc k) [] n = refl
  eligible-append (suc k) (si ∷ sis) n =
      let there : n + suc (length (take k sis)) ≡ suc n + length (take k sis) = omega arith in
      rw there (
        cons (suinfo_reclaimable si && (policy.evaluate sustat si n now prottime).1)
          (eligible-append k sis (suc n)))
    where
      cons :
          (b : Bool)
          → eligible (take k sis) (suc n) ++ eligible (drop k sis) (suc n + length (take k sis))
            ≡ eligible sis (suc n)
          → (if b
                then (policy.evaluate sustat si n now prottime).0 ∷ eligible (take k sis) (suc n)
                else eligible (take k sis) (suc n))
              ++ eligible (drop k sis) (suc n + length (take k sis))
            ≡ (if b
                then (policy.evaluate sustat si n now prottime).0 ∷ eligible sis (suc n)
                else eligible sis (suc n))
      cons true e = ap (◌∷◌ (policy.evaluate sustat si n now prottime).0) e
      cons false e = e

Answers-Safe {ℓ} : {A : Type ℓ} (P : A → Type 0) (r : Result A) → Answers P r → Safe P r
Answers-Safe P r (inl over) = rw over tt
Answers-Safe P r (inr (inl denied)) = rw denied tt
Answers-Safe P r (inr (inr (a, ran, p))) = rw ran p

-- A vector that holds these elements.
abbrev pub Holds {ℓ} : {A : Type ℓ} → List A → Vector A → Type ℓ
Holds xs v = IsVector v × (contents v ≡ xs)

-- A deletion of the element that was pushed last.
delete-pushed {ℓ} :
    {A : Type ℓ} (v w : Vector A) (x : A) (i : ℕ)
    → i ≡ length (contents v)
    → w.v_nelems ≡ suc i
    → IsPushed v x w
    → (u : Vector A) × (delete_elements w i 1 ≡ ok u) × Holds (contents v) u
delete-pushed v w x i long one_more pushed =
    let (u, ran, deleted) =
      delete_elements-IsDeleted w i 1 pushed.valid (omega arith) (omega (arith, one_more)) in
    let before : take i (contents w) ≡ contents v = rw (pushed.appended) (
      take-append_le (contents v) (x ∷ []) i (omega (arith, long))
      ∙ take-length (contents v) i (omega (arith, long))) in
    let after : drop (i + 1) (contents w) ≡ [] =
      rw (pushed.appended) (drop-append (contents v) (x ∷ []) i 1 (sym long)) in
    (u, ran, (deleted.valid, deleted.removed ∙ rw (before, after) (append-nil (contents v))))

delete-last {ℓ} :
    {A : Type ℓ} (v w : Vector A) (x : A)
    → IsVector v
    → IsPushed v x w
    → (u : Vector A) × (delete_elements w (get_size w - 1) 1 ≡ ok u) × Holds (contents v) u
unfolding get_size
delete-last v w x valid pushed =
    delete-pushed v w x (w.v_nelems - 1) (omega (arith, pushed.one_more, length-contents v valid))
      (omega (arith, pushed.one_more)) pushed

module _ {S : Type 0} (alloc : ℕ → Bool) (junk : Candidate S) (policy : Policy S) (sustat : Sustat)
    (now prottime : ℤ) where
  add_candidate-Safe :
      (v : Vector (Candidate S)) (si : Suinfo) (segnum : ℕ)
      → IsVector v
      → Safe
          (Holds (
            contents v
            ++ (if (policy.evaluate sustat si segnum now prottime).1
                then (policy.evaluate sustat si segnum now prottime).0 ∷ []
                else [])))
          (add_candidate alloc junk policy sustat now prottime v si segnum)
  unfolding add_candidate or_unchanged
  add_candidate-Safe v si segnum valid =
      let r = policy.evaluate sustat si segnum now prottime in
      Safe-bind _ (push alloc junk v r.0) _
        (Answers-Safe (IsPushed v r.0) _ (push-IsPushed alloc junk v r.0 valid))
        (λ w pushed. judged r.1 r.0 w pushed)
    where
      judged :
          (b : Bool) (x : Candidate S) (w : Vector (Candidate S))
          → IsPushed v x w
          → Safe
              (Holds (contents v ++ (if b then x ∷ [] else [])))
              (if b then ok w else or_unchanged w (delete_elements w (get_size w - 1) 1))
      judged true x w pushed = (pushed.valid, pushed.appended)
      judged false x w pushed =
          let (u, ran, held) = delete-last v w x valid pushed in
          rw (ran, append-nil (contents v)) held

  pub add_candidates-Safe :
      (sis : List Suinfo) (segnum : ℕ) (v : Vector (Candidate S)) (oldest : ℕ)
      → IsVector v
      → Safe
          (λ r.
            Holds (contents v ++ eligible policy sustat now prottime sis segnum) r.0
            × (r.1 ≡ oldest_of sis oldest))
          (add_candidates alloc junk policy sustat now prottime sis segnum v oldest)
  unfolding add_candidates oldest_of
  add_candidates-Safe [] segnum v oldest valid = ((valid, sym (append-nil (contents v))), refl)
  add_candidates-Safe (si ∷ sis) segnum v oldest valid = elim (Bool-cases (suinfo_reclaimable si)) [
    | inr skipped ↦ rw skipped (add_candidates-Safe sis (suc segnum) v oldest valid)
    | inl taken ↦
        let (x, b) = policy.evaluate sustat si segnum now prottime in
        rw taken (
          Safe-bind _ (add_candidate alloc junk policy sustat now prottime v si segnum) _
            (add_candidate-Safe v si segnum valid)
            (λ w held.
              subst
                (λ xs.
                  Safe
                    (λ r.
                      Holds xs r.0
                      × (r.1
                          ≡ oldest_of sis
                              (if ltb si.sui_lastmod oldest then si.sui_lastmod else oldest)))
                    (add_candidates alloc junk policy sustat now prottime sis (suc segnum) w
                      (if ltb si.sui_lastmod oldest then si.sui_lastmod else oldest)))
                (joined w b x held.1) (add_candidates-Safe sis (suc segnum) w _ held.0)))
  ]
    where
      joined :
          (w : Vector (Candidate S)) (b : Bool) (x : Candidate S)
          → contents w ≡ contents v ++ (if b then x ∷ [] else [])
          → contents w ++ eligible policy sustat now prottime sis (suc segnum)
            ≡ contents v
              ++ (if b
                  then x ∷ eligible policy sustat now prottime sis (suc segnum)
                  else eligible policy sustat now prottime sis (suc segnum))
      joined w true x e = rw e (append_assoc (contents v) (x ∷ []) _)
      joined w false x e = rw (e, append-nil (contents v)) refl
