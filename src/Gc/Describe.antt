-- ===== src/Gc/Describe.antt =====
-- nilfs_get_vdesc and nilfs_get_bdesc of lib/gc.c: ask the kernel about the collected blocks, at most
-- 512 at a time, and enter the answers. nilfs_get_vinfo and nilfs_get_bdescs are parameters; they
-- give the descriptions of as many blocks as they answer.
use nilfs_utils.Base.{
  ℕ, zero, suc, ◌+◌, ◌-◌, min, List, [], ◌∷◌, not, ltb, ◌==◌, if◌then◌else◌, Result, ok, fault,
  ◌>>=◌, checked, length, take, drop,
}
use nilfs_utils.Vector.{Vector, contents, sort_elements, get_size, get_element, put_element}
use nilfs_utils.Gc.{Vdesc, Bdesc}

-- NILFS_GC_NVINFO and NILFS_GC_NBDESCS
abbrev pub gc_nvinfo : ℕ
gc_nvinfo = 512

abbrev pub gc_nbdescs : ℕ
gc_nbdescs = 512

-- struct nilfs_vinfo, the fields read here
pub record Vinfo : Type 0 where
  pub vi_vblocknr : ℕ
  pub vi_start : ℕ
  pub vi_end : ℕ

-- The first inner loop: the virtual block numbers of up to `count` descriptors from `at` on.
unfoldable pub ask_vblocknrs : ℕ → Vector Vdesc → ℕ → Result (List ℕ)
ask_vblocknrs zero v at = ok []
ask_vblocknrs (suc count) v at =
    let rest = ask_vblocknrs count v (at + 1) in
    if ltb at (get_size v)
    then (checked (get_element v at) >>= λ vdesc. rest >>= λ more. ok (vdesc.vd_vblocknr ∷ more))
    else ok []

-- The second inner loop: enter the periods.
unfoldable pub enter_periods : List Vinfo → Vector Vdesc → ℕ → Result (Vector Vdesc)
enter_periods [] v at = ok v
enter_periods (vinfo ∷ rest) v at = checked (get_element v at) >>= λ vdesc.
    if not (vdesc.vd_vblocknr == vinfo.vi_vblocknr)
    then fault
    else enter_periods rest
        (put_element v at
          (record vdesc { vd_period = record { p_start = vinfo.vi_start; p_end = vinfo.vi_end } }))
        (at + 1)

-- Enter the answers about blocks on the disk.
unfoldable pub enter_bdescs : List Bdesc → Vector Bdesc → ℕ → Result (Vector Bdesc)
enter_bdescs [] v at = ok v
enter_bdescs (answer ∷ rest) v at =
    checked (get_element v at) >>= λ old. enter_bdescs rest (put_element v at answer) (at + 1)

module _ (sort_vblocknr : List Vdesc → List Vdesc) (get_vinfo : List ℕ → Result (List Vinfo)) where
  -- The outer loop of nilfs_get_vdesc. An answer for no block at all would never end it.
  unfoldable pub get_vdesc_loop : ℕ → Vector Vdesc → ℕ → Result (Vector Vdesc)
  get_vdesc_loop zero v i = fault
  get_vdesc_loop (suc fuel) v i =
      if ltb i (get_size v)
      then (ask_vblocknrs gc_nvinfo v i >>= λ asked. get_vinfo asked >>= λ answers.
          enter_periods answers v i >>= λ w. get_vdesc_loop fuel w (i + length answers))
      else ok v

  -- nilfs_get_vdesc
  unfoldable pub get_vdesc : Vector Vdesc → Result (Vector Vdesc)
  get_vdesc vdescv = get_vdesc_loop (suc (get_size vdescv)) (sort_elements sort_vblocknr vdescv) 0

module _ (sort_bdesc : List Bdesc → List Bdesc)
    (get_bdescs : List Bdesc → Result (List Bdesc)) where
  -- The loop of nilfs_get_bdesc.
  unfoldable pub get_bdesc_loop : ℕ → Vector Bdesc → ℕ → Result (Vector Bdesc)
  get_bdesc_loop zero v i = fault
  get_bdesc_loop (suc fuel) v i =
      let count = min (get_size v - i) gc_nbdescs in
      if ltb i (get_size v)
      then (get_bdescs (take count (drop i (contents v))) >>= λ answers.
          enter_bdescs answers v i >>= λ w. get_bdesc_loop fuel w (i + length answers))
      else ok v

  -- nilfs_get_bdesc
  unfoldable pub get_bdesc : Vector Bdesc → Result (Vector Bdesc)
  get_bdesc bdescv = get_bdesc_loop (suc (get_size bdescv)) (sort_elements sort_bdesc bdescv) 0
