-- ===== src/Gc/Whole.antt =====
-- nilfs_xreclaim_segment of lib/gc.c, composed from its steps, and its callers in that file. A failing
-- nilfs_unlock_cleaner, which ends the process, is left out, as are the messages. On an error the
-- counts in `stat` are lost, as its callers do not read them then.
use nilfs_utils.Base.{
  ℕ, Bool, true, false, not, Option, none, some, List, [], ◌∷◌, ◌==◌, if◌then◌else◌, Result, ok,
  err, fault, einval, ◌>>=◌, take,
}
use nilfs_utils.Vector.{Vector, create, sort_elements, get_size}
use nilfs_utils.Segment.{Segment}
use nilfs_utils.Gc.{Period, Vdesc, Bdesc, cno_max}
use nilfs_utils.Gc.Snapshot.{Cpinfo, get_snapshot}
use nilfs_utils.Gc.Select.{Suinfo, cnt64_ge, acc_blocks}
use nilfs_utils.Gc.Describe.{Vinfo, get_vdesc, get_bdesc}
use nilfs_utils.Gc.Toss.{toss_vdescs, toss_bdescs}
use nilfs_utils.Gc.Unify.{unify_period}
use nilfs_utils.Gc.Reclaim.{
  ReclaimParams, ReclaimStat, SuinfoUpdate, Prepared, Call, System, valid_flags, has_protcno,
  count_segments, count_vblks, count_pblks, commit,
}

-- The calls that only read the file system, or lock it.
pub record Reading : Type 0 where
  pub block_signals : Result ℕ
  pub lock_cleaner : Result ℕ
  pub get_suinfo : ℕ → Result Suinfo
  pub get_segment : ℕ → Result Segment
  pub put_segment : Segment → Result ℕ
  pub get_segment_seqnum : ℕ → Result ℕ
  pub get_vinfo : List ℕ → Result (List Vinfo)
  pub get_cpstat : Result ℕ
  pub get_cpinfo : ℕ → ℕ → Result (List Cpinfo)
  pub get_bdescs : List Bdesc → Result (List Bdesc)
  pub blocks_per_segment : ℕ
  pub opt_set_suinfo : Bool

-- qsort with the four comparison functions
pub record Sorts : Type 0 where
  pub by_vblocknr : List Vdesc → List Vdesc
  pub by_blocknr : List Vdesc → List Vdesc
  pub by_start : List Period → List Period
  pub by_bdesc : List Bdesc → List Bdesc

-- What fresh memory holds.
pub record Junk : Type 0 where
  pub vdesc : Vdesc
  pub bdesc : Bdesc
  pub period : Period
  pub number : ℕ
  pub update : SuinfoUpdate

module _ (alloc : ℕ → Bool) (junk : Junk) (sorts : Sorts) (reading : Reading)
    (system : System) where
  -- From the creation of the vectors to the test of `dryrun`: the vector `supv`, the counts, and what
  -- is prepared, which is nothing if no segment is left.
  unfoldable pub prepare :
      ReclaimParams
      → List ℕ
      → ℕ
      → ReclaimStat
      → Result (Vector SuinfoUpdate × ReclaimStat × Option Prepared)
  prepare params segnums nsegs stat = create alloc junk.vdesc 64 >>= λ vdescv.
      create alloc junk.bdesc 40 >>= λ bdescv. create alloc junk.period 16 >>= λ periodv.
      create alloc junk.number 8 >>= λ vblocknrv. create alloc junk.update 32 >>= λ supv.
      reading.block_signals >>= λ blocked. reading.lock_cleaner >>= λ locked.
      acc_blocks alloc junk.vdesc junk.bdesc reading.get_suinfo reading.get_segment
        reading.put_segment params.protseq segnums nsegs
        (record { vdescv = vdescv; bdescv = bdescv })
      >>= λ selection.
          let counted = count_segments nsegs selection.nsegs stat in
          let protcno = if has_protcno params then params.protcno else cno_max in
          if selection.nsegs == 0
          then ok (supv, counted, none)
          else (get_vdesc sorts.by_vblocknr reading.get_vinfo (selection.found).vdescv
              >>= λ described.
                  get_snapshot alloc junk.number reading.get_cpstat reading.get_cpinfo >>= λ ss.
                  toss_vdescs alloc junk.period junk.number (take ss.1 ss.0) protcno described
                    periodv vblocknrv
                  >>= λ tossed. unify_period sorts.by_start tossed.periodv >>= λ periods.
                      get_bdesc sorts.by_bdesc reading.get_bdescs (selection.found).bdescv
                      >>= λ located. toss_bdescs located >>= λ live.
                          let prepared : Prepared = record {
                            segnums = selection.segnums;
                            nsegs = selection.nsegs;
                            vdescv = sort_elements sorts.by_blocknr tossed.vdescv;
                            bdescv = live;
                            periodv = periods;
                            vblocknrv = tossed.vblocknrv;
                          } in
                          ok (
                            supv,
                            count_pblks reading.blocks_per_segment (get_size located) prepared
                                (count_vblks (get_size described) prepared counted),
                            some prepared,
                          ))

  -- nilfs_xreclaim_segment
  unfoldable pub xreclaim_segment :
      List ℕ → ℕ → Bool → ReclaimParams → ReclaimStat → List Call × Result ReclaimStat
  xreclaim_segment segnums nsegs dryrun params stat =
      if not (valid_flags params)
      then ([], err einval)
      else if nsegs == 0
      then ([], ok stat)
      else elim (prepare params segnums nsegs stat) [
        | err e ↦ ([], err e)
        | fault ↦ ([], fault)
        | ok r ↦ elim (r.2) [
          | none ↦ ([], ok r.1)
          | some prepared ↦
              commit alloc junk.update system params dryrun reading.opt_set_suinfo
                reading.blocks_per_segment r.0 prepared r.1
        ]
      ]

  -- `stat` as memset leaves it
  abbrev pub no_stat : ReclaimStat
  no_stat = record {
    exflags = 0;
    cleaned_segs = 0;
    protected_segs = 0;
    deferred_segs = 0;
    live_blks = 0;
    live_vblks = 0;
    live_pblks = 0;
    defunct_blks = 0;
    defunct_vblks = 0;
    defunct_pblks = 0;
    freed_vblks = 0;
  }

  -- nilfs_reclaim_segment: the calls made, and how many segments count as cleaned
  unfoldable pub reclaim_segment : List ℕ → ℕ → ℕ → ℕ → List Call × Result ℕ
  reclaim_segment segnums nsegs protseq protcno =
      let r =
        xreclaim_segment segnums nsegs false
          (record { flags = 3; min_reclaimable_blks = 0; protseq = protseq; protcno = protcno })
          no_stat in
      (r.0, r.1 >>= λ stat. ok stat.cleaned_segs)

  -- nilfs_segment_is_protected
  unfoldable pub segment_is_protected : ℕ → ℕ → Result Bool
  segment_is_protected segnum protseq =
      reading.get_segment_seqnum segnum >>= λ seqnum. ok (cnt64_ge seqnum protseq)

  -- assess_segment_if_dirty: `none` for a clean segment
  unfoldable pub assess_segment_if_dirty : ℕ → ℕ → ℕ → Result (Option ReclaimStat)
  assess_segment_if_dirty ss_prot_seq segnum protcno = reading.get_suinfo segnum >>= λ si.
      let params : ReclaimParams = record {
        flags = 3;
        min_reclaimable_blks = 0;
        protseq = ss_prot_seq;
        protcno = protcno;
      } in
      if si.sui_flags == 0
      then ok none
      else (xreclaim_segment (segnum ∷ []) 1 true params no_stat).1 >>= λ stat. ok (some stat)
