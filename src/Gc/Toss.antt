-- ===== src/Gc/Toss.antt =====
-- nilfs_toss_vdescs and nilfs_toss_bdescs of lib/gc.c: drop the descriptors of dead blocks, and note
-- the virtual block numbers and periods of the dead ones for deletion.
pub mod Runs
pub mod Bdescs
pub mod Vdescs
use nilfs_utils.Base.{
  ℕ, zero, suc, ◌+◌, ◌-◌, Bool, List, not, ltb, ◌==◌, if◌then◌else◌, Result, ok, fault, ◌>>=◌,
  checked,
}
use nilfs_utils.Vector.{Vector, or_unchanged, get_size, get_element, delete_elements, push}
use nilfs_utils.Gc.{Period, Vdesc, Bdesc}
use nilfs_utils.Gc.Live.{vdesc_is_live}

-- `if (j > i) nilfs_vector_delete_elements(v, i, j - i);`
unfoldable pub delete_run {ℓ} : {A : Type ℓ} → Vector A → ℕ → ℕ → Result (Vector A)
delete_run v i j = if ltb i j then or_unchanged v (delete_elements v i (j - i)) else ok v

-- nilfs_bdesc_is_live
unfoldable pub bdesc_is_live : Bdesc → Bool
bdesc_is_live bdesc = bdesc.bd_oblocknr == bdesc.bd_blocknr

-- The inner loop of nilfs_toss_bdescs: the `j` at which it stops.
unfoldable pub toss_bdescs_inner : ℕ → Vector Bdesc → ℕ → Result ℕ
toss_bdescs_inner zero v j = fault
toss_bdescs_inner (suc fuel) v j =
    let next = toss_bdescs_inner fuel v (j + 1) in
    if ltb j (get_size v)
    then (checked (get_element v j) >>= λ bdesc. if bdesc_is_live bdesc then ok j else next)
    else ok j

unfoldable pub toss_bdescs_outer : ℕ → Vector Bdesc → ℕ → Result (Vector Bdesc)
toss_bdescs_outer zero v i = fault
toss_bdescs_outer (suc fuel) v i =
    let next = λ (w : Vector Bdesc). toss_bdescs_outer fuel w (i + 1) in
    if ltb i (get_size v)
    then (toss_bdescs_inner (suc (get_size v)) v i >>= λ j. delete_run v i j >>= next)
    else ok v

-- nilfs_toss_bdescs
unfoldable pub toss_bdescs : Vector Bdesc → Result (Vector Bdesc)
toss_bdescs bdescv = toss_bdescs_outer (suc (get_size bdescv)) bdescv 0

-- What nilfs_toss_vdescs changes as it goes.
pub record Tossed : Type 0 where
  pub vdescv : Vector Vdesc
  pub periodv : Vector Period
  pub vblocknrv : Vector ℕ
  pub last_hit : ℕ

module _ (alloc : ℕ → Bool) (junk_period : Period) (junk_vblocknr : ℕ) (ss : List ℕ)
    (protcno : ℕ) where
  -- One dead descriptor: its number, and its period unless the file is cpfile or sufile.
  unfoldable pub note_dead : Tossed → Vdesc → Result Tossed
  note_dead s vdesc = push alloc junk_vblocknr s.vblocknrv vdesc.vd_vblocknr >>= λ numbers.
      if not (vdesc.vd_cno == 0)
      then (push alloc junk_period s.periodv vdesc.vd_period >>= λ periods.
          ok (record s { vblocknrv = numbers; periodv = periods }))
      else ok (record s { vblocknrv = numbers })

  -- The inner loop of nilfs_toss_vdescs.
  unfoldable pub toss_vdescs_inner : ℕ → Tossed → ℕ → Result (Tossed × ℕ)
  toss_vdescs_inner zero s j = fault
  toss_vdescs_inner (suc fuel) s j =
      let next = λ (t : Tossed). toss_vdescs_inner fuel t (j + 1) in
      if ltb j (get_size s.vdescv)
      then (checked (get_element s.vdescv j) >>= λ vdesc.
          vdesc_is_live vdesc protcno ss s.last_hit >>= λ r.
          let t = record s { last_hit = r.1 } in
          if r.0 then ok (t, j) else note_dead t vdesc >>= next)
      else ok (s, j)

  unfoldable pub toss_vdescs_outer : ℕ → Tossed → ℕ → Result Tossed
  toss_vdescs_outer zero s i = fault
  toss_vdescs_outer (suc fuel) s i =
      let next = λ (t : Tossed). toss_vdescs_outer fuel t (i + 1) in
      if ltb i (get_size s.vdescv)
      then (toss_vdescs_inner (suc (get_size s.vdescv)) s i >>= λ r.
          delete_run (r.0).vdescv i r.1 >>= λ v. next (record (r.0) { vdescv = v }))
      else ok s

  -- nilfs_toss_vdescs, once the snapshots `ss` are known
  unfoldable pub toss_vdescs : Vector Vdesc → Vector Period → Vector ℕ → Result Tossed
  toss_vdescs vdescv periodv vblocknrv =
      toss_vdescs_outer (suc (get_size vdescv))
        (record { vdescv = vdescv; periodv = periodv; vblocknrv = vblocknrv; last_hit = 0 }) 0
