-- ===== src/Gc/Reclaim.antt =====
-- The end of nilfs_xreclaim_segment of lib/gc.c: what it does once the descriptors are tossed. It
-- either defers the segments, by a new time stamp in their usage records, or has the kernel clean
-- them. The calls that change the file system are kept in their order, as `Call`s. `stat` is not
-- NULL, as all callers in the repository have it.
pub mod Deferral
use nilfs_utils.Base.{
  ℕ, zero, suc, ◌+◌, ◌-◌, ◌*◌, ◌/◌, ◌%◌, Bool, true, false, not, ◌&&◌, ◌||◌, List, [], ◌∷◌, ◌++◌,
  ltb, ◌==◌, if◌then◌else◌, Result, ok, err, fault, Errno, einval, enotty, ◌>>=◌, take, u32, u64,
  sub64,
}
use nilfs_utils.Vector.{Vector, contents, get_size, push, create}
use nilfs_utils.Gc.{Period, Vdesc, Bdesc}

-- struct nilfs_reclaim_params
pub record ReclaimParams : Type 0 where
  pub flags : ℕ
  pub min_reclaimable_blks : ℕ
  pub protseq : ℕ
  pub protcno : ℕ

-- NILFS_RECLAIM_PARAM_PROTSEQ, _PROTCNO and _MIN_RECLAIMABLE_BLKS: bits 0, 1 and 2
abbrev pub has_protseq : ReclaimParams → Bool
has_protseq p = p.flags % 2 == 1

abbrev pub has_protcno : ReclaimParams → Bool
has_protcno p = p.flags / 2 % 2 == 1

abbrev pub has_min_reclaimable_blks : ReclaimParams → Bool
has_min_reclaimable_blks p = p.flags / 4 % 2 == 1

-- The test of the flags at the start: protseq is mandatory, and bits from 3 on are unknown.
unfoldable pub valid_flags : ReclaimParams → Bool
valid_flags p = has_protseq p && p.flags / 8 == 0

-- struct nilfs_reclaim_stat
pub record ReclaimStat : Type 0 where
  pub exflags : ℕ
  pub cleaned_segs : ℕ
  pub protected_segs : ℕ
  pub deferred_segs : ℕ
  pub live_blks : ℕ
  pub live_vblks : ℕ
  pub live_pblks : ℕ
  pub defunct_blks : ℕ
  pub defunct_vblks : ℕ
  pub defunct_pblks : ℕ
  pub freed_vblks : ℕ

-- struct nilfs_suinfo_update, the fields set here
pub record SuinfoUpdate : Type 0 where
  pub sup_segnum : ℕ
  pub sup_flags : ℕ
  pub sui_lastmod : ℕ

-- What the steps before leave: the segments selected, and the descriptors of their blocks.
pub record Prepared : Type 0 where
  pub segnums : List ℕ
  pub nsegs : ℕ
  pub vdescv : Vector Vdesc
  pub bdescv : Vector Bdesc
  pub periodv : Vector Period
  pub vblocknrv : Vector ℕ

-- A call that changes the file system.
pub data Call : Type 0 where
  set_suinfo : List SuinfoUpdate → Call
  clean_segments : List Vdesc → List Period → List ℕ → List Bdesc → List ℕ → Call

-- `stat` after nilfs_acc_blocks selected `n` of `nsegs` segments
unfoldable pub count_segments : ℕ → ℕ → ReclaimStat → ReclaimStat
count_segments nsegs n stat = record stat {
  cleaned_segs = n;
  protected_segs = sub64 nsegs n;
  deferred_segs = 0;
}

-- `stat` after nilfs_toss_vdescs: of `nblocks` virtual blocks
unfoldable pub count_vblks : ℕ → Prepared → ReclaimStat → ReclaimStat
count_vblks nblocks p stat = record stat {
  live_vblks = get_size p.vdescv;
  defunct_vblks = sub64 nblocks (get_size p.vdescv);
  freed_vblks = get_size p.vblocknrv;
}

-- the blocks that cleaning wins, in 32 bits
unfoldable pub reclaimable_blocks : ℕ → Prepared → ℕ
reclaimable_blocks blocks_per_segment p =
    u32 (sub64 (u64 (blocks_per_segment * p.nsegs)) (u64 (get_size p.vdescv + get_size p.bdescv)))

-- `stat` after nilfs_toss_bdescs: of `nblocks` blocks of the DAT file
unfoldable pub count_pblks : ℕ → ℕ → Prepared → ReclaimStat → ReclaimStat
count_pblks blocks_per_segment nblocks p stat = record stat {
  live_pblks = get_size p.bdescv;
  defunct_pblks = sub64 nblocks (get_size p.bdescv);
  live_blks = u64 (stat.live_vblks + get_size p.bdescv);
  defunct_blks = reclaimable_blocks blocks_per_segment p;
}

unfoldable pub is_enotty : Errno → Bool
is_enotty e = elim e [ enotty ↦ true | _ ↦ false ]

-- The answers of the system: the pending signals (is SIGINT or SIGTERM among them?), the time, and
-- the two calls that change the file system.
pub record System : Type 0 where
  pub sigpending : Result Bool
  pub gettimeofday : Result ℕ
  pub do_set_suinfo : List SuinfoUpdate → Result ℕ
  pub do_clean_segments : Prepared → Result ℕ

module _ (alloc : ℕ → Bool) (junk : SuinfoUpdate) (system : System) where
  -- The loop that fills `supv`.
  unfoldable pub fill_updates : ℕ → List ℕ → Vector SuinfoUpdate → Result (Vector SuinfoUpdate)
  fill_updates now [] supv = ok supv
  fill_updates now (segnum ∷ segnums) supv =
      push alloc junk supv (record { sup_segnum = segnum; sup_flags = 1; sui_lastmod = now })
      >>= fill_updates now segnums

  -- nilfs_clean_segments, after the calls `before`
  unfoldable pub clean : List Call → Prepared → ReclaimStat → List Call × Result ReclaimStat
  clean before p stat = (
    before
        ++ clean_segments (contents p.vdescv) (contents p.periodv) (contents p.vblocknrv)
            (contents p.bdescv) (take p.nsegs p.segnums)
          ∷ [],
    system.do_clean_segments p >>= λ done. ok stat,
  )

  -- The branch for too few reclaimable blocks, once the time is known and `supv` is filled. A
  -- set_suinfo that the kernel does not know falls back on cleaning.
  unfoldable pub defer : List SuinfoUpdate → Prepared → ReclaimStat → List Call × Result ReclaimStat
  defer updates p stat =
      let calls = set_suinfo updates ∷ [] in
      let back = clean calls p (record stat { deferred_segs = 0; cleaned_segs = p.nsegs }) in
      elim (system.do_set_suinfo updates) [
        | ok ret ↦ if ret == 0 then (calls, ok stat) else back
        | err e ↦ if is_enotty e then back else (calls, err e)
        | fault ↦ (calls, fault)
      ]

  -- From the test of `dryrun` on. `opt` is nilfs_opt_test_set_suinfo, `supv` the vector made at the
  -- start. When `supv` cannot grow, the answer is that of gettimeofday, 0.
  unfoldable pub commit :
      ReclaimParams
      → Bool
      → Bool
      → ℕ
      → Vector SuinfoUpdate
      → Prepared
      → ReclaimStat
      → List Call × Result ReclaimStat
  commit params dryrun opt blocks_per_segment supv p stat =
      let few =
        has_min_reclaimable_blks params
        && opt
        && ltb (reclaimable_blocks blocks_per_segment p)
            (u64 (params.min_reclaimable_blks * p.nsegs)) in
      let deferred = record stat { deferred_segs = p.nsegs; cleaned_segs = 0 } in
      if dryrun then ([], ok stat) else elim (system.sigpending) [
        | err e ↦ ([], err e)
        | fault ↦ ([], fault)
        | ok pending ↦
            if pending
            then ([], ok stat)
            else if not few
            then clean [] p stat
            else elim (system.gettimeofday) [
              | err e ↦ ([], err e)
              | fault ↦ ([], fault)
              | ok now ↦ elim (fill_updates now (take p.nsegs p.segnums) supv) [
                | err e ↦ ([], ok deferred)
                | fault ↦ ([], fault)
                | ok full ↦ defer (contents full) p deferred
              ]
            ]
      ]
