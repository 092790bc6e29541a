-- ===== src/Vector.antt =====
-- lib/vector.c and include/vector.h: a resizable array. The bytes behind `v_data` are kept as the
-- slots that they hold, `v_data` in elements of `v_elemsize` bytes; addresses and the sizes handed
-- to `memmove` are counted in such slots. `malloc` and `realloc` are the parameter `alloc` (does a
-- request for this many bytes succeed?), and `junk` is what a fresh slot holds.
pub mod Enlarge
pub mod Laws
pub mod Edit
pub mod Order
use nilfs_utils.Base.{
  ℕ, zero, suc, ◌+◌, ◌-◌, ◌*◌, ◌/◌, ◌≤◌, ◌<◌, ◌^◌, ◌≡◌, Bool, not, ◌&&◌, ◌||◌, Option, List, ◌++◌,
  ltb, leb, ◌==◌, if◌then◌else◌, Result, ok, err, fault, einval, eoverflow, enomem, ◌>>=◌, length,
  get_elem?, set, take, drop, replicate, u64, sub64, size_max,
}

-- NILFS_VECTOR_INIT_MAXELEMS
abbrev pub init_maxelems : ℕ
init_maxelems = 256

-- NILFS_VECTOR_FACTOR
abbrev pub factor : ℕ
factor = 2

-- sizeof(struct nilfs_vector): four 64-bit fields
abbrev pub sizeof_vector : ℕ
sizeof_vector = 32

pub record Vector {ℓ} (A : Type ℓ) : Type ℓ where
  pub v_data : List A
  pub v_elemsize : ℕ
  pub v_nelems : ℕ
  pub v_maxelems : ℕ

-- The elements that the vector holds.
abbrev pub contents {ℓ} : {A : Type ℓ} → Vector A → List A
contents v = take v.v_nelems v.v_data

-- The memory is as large as `v_maxelems` says, and its size in bytes is a `size_t`.
pub record IsVector {ℓ} {A : Type ℓ} (v : Vector A) : Type 0 where
  pub sized : length v.v_data ≡ v.v_maxelems
  pub within : v.v_nelems ≤ v.v_maxelems
  pub roomy : 0 < v.v_maxelems
  pub elem : 0 < v.v_elemsize
  pub bytes : v.v_elemsize * v.v_maxelems ≤ size_max

-- The growth loop of nilfs_vector_enlarge: the new `maxelems`. With no fuel left it would go on.
unfoldable pub enlarge_loop : ℕ → ℕ → ℕ → ℕ → Result ℕ
enlarge_loop zero nelems_limit minelems maxelems = fault
enlarge_loop (suc fuel) nelems_limit minelems maxelems =
    let grown = u64 (maxelems * factor) in
    let rest = enlarge_loop fuel nelems_limit minelems grown in
    if ltb nelems_limit maxelems
    then err eoverflow
    else if ltb grown minelems
    then rest
    else ok grown

-- Doubling a positive 64-bit number passes the limit within 64 rounds.
abbrev pub enlarge_fuel : ℕ
enlarge_fuel = 65

module _ {ℓ} {A : Type ℓ} where
  -- memmove(data + dst, data + src, n)
  unfoldable pub memmove : List A → ℕ → ℕ → ℕ → Result (List A)
  memmove data_ dst src n =
      if leb (src + n) (length data_) && leb (dst + n) (length data_)
      then ok (take dst data_ ++ (take n (drop src data_) ++ drop (dst + n) data_))
      else fault

  -- nilfs_vector_get_size
  unfoldable pub get_size : Vector A → ℕ
  get_size v = v.v_nelems

  -- nilfs_vector_get_element; `none` is NULL
  unfoldable pub get_element : Vector A → ℕ → Option A
  get_element v index = if ltb index v.v_nelems then get_elem? v.v_data index else Option.none

  -- a store through the pointer that nilfs_vector_get_element or _get_new_element returned
  unfoldable pub put_element : Vector A → ℕ → A → Vector A
  put_element v index x = record v { v_data = set v.v_data index x }

  -- nilfs_vector_sort; `qsort` with the caller's order is the parameter
  unfoldable pub sort_elements : (List A → List A) → Vector A → Vector A
  sort_elements qsort v = record v { v_data = qsort (contents v) ++ drop v.v_nelems v.v_data }

  -- nilfs_vector_delete_elements
  unfoldable pub delete_elements : Vector A → ℕ → ℕ → Result (Vector A)
  unfolding memmove
  delete_elements v index nelems =
      let last = sub64 (index + nelems) 1 in
      let stop = u64 (index + nelems) in
      let moved =
        if ltb last (sub64 v.v_nelems 1)
        then memmove v.v_data index stop (sub64 v.v_nelems stop)
        else ok v.v_data in
      if leb v.v_nelems index || leb v.v_nelems last
      then err einval
      else moved >>= λ d. ok (record v { v_data = d; v_nelems = sub64 v.v_nelems nelems })

  -- A call whose return value the caller drops: an error leaves the vector as it was.
  unfoldable pub or_unchanged : Vector A → Result (Vector A) → Result (Vector A)
  or_unchanged v (ok w) = ok w
  or_unchanged v (err e) = ok v
  or_unchanged v fault = fault

module _ {ℓ} {A : Type ℓ} (alloc : ℕ → Bool) (junk : A) where
  -- realloc(data, bytes), in slots of `elemsize` bytes
  unfoldable pub realloc : List A → ℕ → ℕ → Result (List A)
  realloc slots elemsize bytes =
      let n = bytes / elemsize in
      if alloc bytes then ok (take n slots ++ replicate (n - length slots) junk) else err enomem

  -- nilfs_vector_create
  unfoldable pub create : ℕ → Result (Vector A)
  create elemsize =
      let bytes = u64 (elemsize * init_maxelems) in
      if elemsize == 0
      then err einval
      else if not (alloc sizeof_vector)
      then err enomem
      else if not (alloc bytes)
      then err enomem
      else ok (record {
        v_data = replicate (bytes / elemsize) junk;
        v_elemsize = elemsize;
        v_nelems = 0;
        v_maxelems = init_maxelems;
      })

  -- nilfs_vector_enlarge
  unfoldable pub enlarge : Vector A → ℕ → Result (Vector A)
  unfolding realloc
  enlarge v minelems = do
    maxelems ← enlarge_loop enlarge_fuel (size_max / factor / v.v_elemsize) minelems v.v_maxelems
    slots ← realloc v.v_data v.v_elemsize (u64 (v.v_elemsize * maxelems))
    ok (record v { v_data = slots; v_maxelems = maxelems })

  -- nilfs_vector_get_new_element: the index of the new slot, and the vector
  unfoldable pub get_new_element : Vector A → Result (ℕ × Vector A)
  get_new_element v = do
    w ← if leb v.v_maxelems v.v_nelems then enlarge v (u64 (v.v_nelems + 1)) else ok v
    ok (w.v_nelems, record w { v_nelems = u64 (w.v_nelems + 1) })

  -- nilfs_vector_clear: a failed realloc keeps the larger memory
  unfoldable pub clear : Vector A → Vector A
  unfolding realloc
  clear v =
      let shrunk =
        if ltb init_maxelems v.v_maxelems
        then realloc v.v_data v.v_elemsize (u64 (v.v_elemsize * init_maxelems))
        else err enomem in
      elim shrunk [
        | ok slots ↦ record v { v_data = slots; v_nelems = 0; v_maxelems = init_maxelems }
        | _ ↦ record v { v_nelems = 0 }
      ]

  -- nilfs_vector_insert_elements: the index of the first new slot, and the vector
  unfoldable pub insert_elements : Vector A → ℕ → ℕ → Result (ℕ × Vector A)
  unfolding memmove
  insert_elements v index nelems =
      if ltb v.v_nelems index
      then err einval
      else if ltb (sub64 size_max v.v_nelems) nelems
      then err eoverflow
      else do
        w ←
            if ltb v.v_maxelems (u64 (v.v_nelems + nelems))
            then enlarge v (u64 (v.v_nelems + nelems))
            else ok v
        slots ←
            if ltb index w.v_nelems
            then memmove w.v_data (u64 (index + nelems)) index (sub64 w.v_nelems index)
            else ok w.v_data
        ok (index, record w { v_data = slots; v_nelems = u64 (w.v_nelems + nelems) })

  -- get_new_element with the store of `x` that its callers make
  unfoldable pub push : Vector A → A → Result (Vector A)
  push v x = do (i, w) ← get_new_element v; ok (put_element w i x)
