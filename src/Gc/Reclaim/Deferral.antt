-- ===== src/Gc/Reclaim/Deferral.antt =====
-- What nilfs_xreclaim_segment reports agrees with the calls that it made.
use mathlib.Core.List.{append_assoc, append-nil}
use nilfs_utils.Base.{
  sym, ap, ◌∙◌, Errno, if◌then◌else◌, ℕ, ◌≡◌, refl, inl, inr, Bool, true, false, not, ◌&&◌, List,
  [], ◌∷◌, ◌++◌, arith, Result, ok, err, fault, take, ltb, ◌==◌, u64, ◌*◌,
}
use nilfs_utils.Segment.Bytes.{Safe, Safe-cases, Safe-map}
use nilfs_utils.Vector.{Vector, IsVector, contents}
use nilfs_utils.Vector.Laws.{push-IsPushed}
use nilfs_utils.Gc.Reclaim.{
  ReclaimParams, ReclaimStat, SuinfoUpdate, Prepared, System, Call, set_suinfo, clean_segments,
  commit, clean, defer, fill_updates, is_enotty, has_min_reclaimable_blks, reclaimable_blocks,
}

-- Every call of the system answers or fails.
pub record Answering (system : System) (p : Prepared) : Type 0 where
  pub signals : Safe (λ b. Unit) system.sigpending
  pub clock : Safe (λ n. Unit) system.gettimeofday
  pub updating : (updates : List SuinfoUpdate) → Safe (λ n. Unit) (system.do_set_suinfo updates)
  pub cleaning : Safe (λ n. Unit) (system.do_clean_segments p)

-- The call that has the kernel clean the prepared segments.
abbrev pub cleaning_call : Prepared → Call
cleaning_call p =
    clean_segments (contents p.vdescv) (contents p.periodv) (contents p.vblocknrv)
      (contents p.bdescv) (take p.nsegs p.segnums)

-- What the usage records of the segments are set to.
abbrev pub updates_of : ℕ → List ℕ → List SuinfoUpdate
updates_of now [] = []
updates_of now (segnum ∷ segnums) =
    record { sup_segnum = segnum; sup_flags = 1; sui_lastmod = now } ∷ updates_of now segnums

-- The kernel does not know the call, or answers a number that is not 0.
abbrev pub IsRefused : Result ℕ → Type 0
IsRefused (ok n) = (n == 0) ≡ false
IsRefused (err e) = is_enotty e ≡ true
IsRefused fault = ⊥

-- What the code decides by, what it counts, and what its calls answer.
module _ (alloc : ℕ → Bool) (junk : SuinfoUpdate) (system : System) (p : Prepared)
    (dryrun few : Bool) (supv : Vector SuinfoUpdate) (stat : ReclaimStat) where
  abbrev pub deferring : ReclaimStat
  deferring = record stat { deferred_segs = p.nsegs; cleaned_segs = 0 }

  abbrev pub cleaned : ReclaimStat
  cleaned = record stat { deferred_segs = 0; cleaned_segs = p.nsegs }

  abbrev pub update_call : ℕ → Call
  update_call now = set_suinfo (updates_of now (take p.nsegs p.segnums))

  -- Every way to succeed: a dry run, or a signal that is pending, makes no call and leaves the counts;
  -- with enough blocks to win the segments are cleaned; with too few of them the vector of updates
  -- cannot grow, which makes no call, or the kernel takes the updates, and all segments count as
  -- deferred, or it does not and they are cleaned after all.
  pub data Outcome : List Call → ReclaimStat → Type 0 where
    dry : dryrun ≡ true → Outcome [] stat
    interrupted : dryrun ≡ false → system.sigpending ≡ ok true → Outcome [] stat
    plenty :
        dryrun ≡ false
        → system.sigpending ≡ ok false
        → few ≡ false
        → Outcome (cleaning_call p ∷ []) stat
    stuck :
        (now : ℕ) (e : Errno)
        → dryrun ≡ false
        → system.sigpending ≡ ok false
        → few ≡ true
        → system.gettimeofday ≡ ok now
        → fill_updates alloc junk system now (take p.nsegs p.segnums) supv ≡ err e
        → Outcome [] deferring
    deferred :
        (now : ℕ)
        → dryrun ≡ false
        → system.sigpending ≡ ok false
        → few ≡ true
        → system.gettimeofday ≡ ok now
        → system.do_set_suinfo (updates_of now (take p.nsegs p.segnums)) ≡ ok 0
        → Outcome (update_call now ∷ []) deferring
    fallen_back :
        (now : ℕ)
        → dryrun ≡ false
        → system.sigpending ≡ ok false
        → few ≡ true
        → system.gettimeofday ≡ ok now
        → IsRefused (system.do_set_suinfo (updates_of now (take p.nsegs p.segnums)))
        → Outcome (update_call now ∷ cleaning_call p ∷ []) cleaned

  abbrev pub Report : List Call × Result ReclaimStat → Type 0
  Report (calls, ok s) = Outcome calls s
  Report (calls, err e) = Unit
  Report (calls, fault) = ⊥

pick_report :
    (P : List Call × Result ReclaimStat → Type 0) (b : Bool) (x y : List Call × Result ReclaimStat)
    → (b ≡ true → P x)
    → (b ≡ false → P y)
    → P (if b then x else y)
pick_report P true x y p q = p refl
pick_report P false x y p q = q refl

module _ (alloc : ℕ → Bool) (junk : SuinfoUpdate) (system : System) (p : Prepared)
    (answering : Answering system p) where
  fill_updates-Safe :
      (now : ℕ) (segnums : List ℕ) (supv : Vector SuinfoUpdate)
      → IsVector supv
      → Safe
          (λ v. contents v ≡ contents supv ++ updates_of now segnums)
          (fill_updates alloc junk system now segnums supv)
  unfolding fill_updates
  fill_updates-Safe now [] supv valid = sym (append-nil (contents supv))
  fill_updates-Safe now (segnum ∷ segnums) supv valid =
      let update : SuinfoUpdate = record {
        sup_segnum = segnum;
        sup_flags = 1;
        sui_lastmod = now;
      } in
      elim (push-IsPushed alloc junk supv update valid) [
        | inl over ↦ rw over tt
        | inr (inl denied) ↦ rw denied tt
        | inr (inr (w, ran, pushed)) ↦ rw ran (
            Safe-map {A = Vector SuinfoUpdate}
              {P = λ v. contents v ≡ contents w ++ updates_of now segnums}
              {Q = λ v. contents v ≡ contents supv ++ updates_of now (segnum ∷ segnums)}
              (fill_updates alloc junk system now segnums w)
              (λ v held.
                held
                ∙ ap (λ xs. xs ++ updates_of now segnums) pushed.appended
                ∙ append_assoc (contents supv) (update ∷ []) (updates_of now segnums))
              (fill_updates-Safe now segnums w pushed.valid))
      ]

  module _ (params : ReclaimParams) (dryrun opt : Bool) (blocks : ℕ) (supv : Vector SuinfoUpdate)
      (stat : ReclaimStat) where
    -- Too few blocks would be won, for a caller that has set a limit.
    abbrev pub is_few : Bool
    is_few =
        has_min_reclaimable_blks params
        && opt
        && ltb (reclaimable_blocks blocks p) (u64 (params.min_reclaimable_blks * p.nsegs))

    abbrev pub Reports : List Call × Result ReclaimStat → Type 0
    Reports = Report alloc junk system p dryrun is_few supv stat

    clean-Reports :
        (before : List Call) (s : ReclaimStat)
        → Outcome alloc junk system p dryrun is_few supv stat (before ++ cleaning_call p ∷ []) s
        → Reports (clean alloc junk system before p s)
    unfolding clean
    clean-Reports before s outcome =
        elim (Safe-cases (system.do_clean_segments p) answering.cleaning) [
          | inr (e, failed) ↦ rw failed tt
          | inl (n, ran, _) ↦ rw ran outcome
        ]

    defer-Reports :
        (now : ℕ)
        → dryrun ≡ false
        → system.sigpending ≡ ok false
        → is_few ≡ true
        → system.gettimeofday ≡ ok now
        → Reports (
            defer alloc junk system
              (updates_of now (take p.nsegs p.segnums))
              p
              (record stat { deferred_segs = p.nsegs; cleaned_segs = 0 }))
    unfolding defer
    defer-Reports now wet asked few told =
        let updates = updates_of now (take p.nsegs p.segnums) in
        let back = λ (refused : IsRefused (system.do_set_suinfo updates)).
          clean-Reports (set_suinfo updates ∷ [])
            (record stat { deferred_segs = 0; cleaned_segs = p.nsegs })
            (fallen_back now wet asked few told refused) in
        elim (Safe-cases (system.do_set_suinfo updates) (answering.updating updates)) [
          | inr (e, failed) ↦
              rw (failed, defer)
                (pick_report Reports (is_enotty e) _ _ (λ unknown. back (rw failed unknown))
                  (λ other. tt))
          | inl (n, ran, _) ↦
              rw (ran, defer)
                (pick_report Reports (n == 0) _ _
                  (λ done.
                    deferred now wet asked few told
                      (ran ∙ ap ok (let zero : n ≡ 0 = ground (arith, done) in zero)))
                  (λ odd. back (rw ran odd)))
        ]

    wet-Reports :
        IsVector supv
        → contents supv ≡ []
        → dryrun ≡ false
        → Reports (commit alloc junk system params false opt blocks supv p stat)
    unfolding commit
    wet-Reports valid empty wet = elim (Safe-cases system.sigpending answering.signals) [
      | inr (e, failed) ↦ rw failed tt
      | inl (pending, asked, _) ↦ simp asked (
          pick_report Reports pending _ _ (λ stop. interrupted wet (asked ∙ ap ok stop))
            (λ go.
              pick_report Reports (not is_few) _ _
                (λ enough.
                  clean-Reports [] stat (plenty wet (asked ∙ ap ok go) (ground (arith, enough))))
                (λ short. late (asked ∙ ap ok go) (ground (arith, short)))))
    ]
      where
        late :
            system.sigpending ≡ ok false
            → is_few ≡ true
            → Reports (elim (system.gettimeofday) [
              | err e ↦ ([], err e)
              | fault ↦ ([], fault)
              | ok now ↦ elim (fill_updates alloc junk system now (take p.nsegs p.segnums) supv) [
                | err e ↦ ([], ok (record stat { deferred_segs = p.nsegs; cleaned_segs = 0 }))
                | fault ↦ ([], fault)
                | ok full ↦
                    defer alloc junk system
                      (contents full)
                      p
                      (record stat { deferred_segs = p.nsegs; cleaned_segs = 0 })
              ]
            ])
        late asked few = elim (Safe-cases system.gettimeofday answering.clock) [
          | inr (e, failed) ↦ rw failed tt
          | inl (now, told, _) ↦
              elim (Safe-cases (fill_updates alloc junk system now (take p.nsegs p.segnums) supv)
                (fill_updates-Safe now (take p.nsegs p.segnums) supv valid)) [
                  | inr (e, failed) ↦ simp (told, failed) (stuck now e wet asked few told failed)
                  | inl (full, filled, held) ↦
                      let all : contents full ≡ updates_of now (take p.nsegs p.segnums) =
                        held ∙ ap (λ xs. xs ++ updates_of now (take p.nsegs p.segnums)) empty in
                      simp (told, filled, all) (defer-Reports now wet asked few told)
                ]
        ]

  -- When the calls of the system answer or fail, and `supv` is well-formed and empty,
  -- nilfs_xreclaim_segment, from the test of `dryrun` on, ends, and if it succeeds the calls that it
  -- made, in order and with their arguments, and the counts that it reports are those of one of six
  -- outcomes. A dry run makes no call and leaves the counts; without one, so does a signal that is
  -- pending. With enough blocks to win, the segments are cleaned and the counts left. With too few: if
  -- the vector of updates cannot grow, no call is made and all segments count as deferred; if the
  -- kernel takes the updates of all segments, they count as deferred; and if it does not know that
  -- call, they are cleaned after it and count as cleaned.
  pub commit_lem :
      (params : ReclaimParams) (dryrun opt : Bool) (blocks : ℕ) (supv : Vector SuinfoUpdate)
      (stat : ReclaimStat)
      → IsVector supv
      → contents supv ≡ []
      → Reports params dryrun opt blocks supv stat
          (commit alloc junk system params dryrun opt blocks supv p stat)
  unfolding commit
  commit_lem params true opt blocks supv stat valid empty = dry refl
  commit_lem params false opt blocks supv stat valid empty =
      wet-Reports params false opt blocks supv stat valid empty refl
