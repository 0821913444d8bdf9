-- ===== src/ChainedCore.antt =====
-- software/spmd/bsg_chained_core: the functions of proc.c by which each core passes a buffer on to the next,
-- and the data of main.c. A tag_data_s is its 32-bit word. A buffer is the memory from its address on,
-- so that an index past the end is a word after it.
pub mod Passes
pub mod Chain
pub mod Rounds
pub mod Between
pub mod Waits
pub mod Sends
pub mod Arrivals
pub mod Order
use bsg_manycore.Prelude.{
  ℕ, zero, suc, ◌+◌, ◌-◌, ◌*◌, ◌/◌, ◌%◌, ◌^◌, List, [], ◌∷◌, Option, none, some, ltb, ◌==◌,
  if◌then◌else◌,
}
use bsg_manycore.Kernels.{Array, Store, for_strided}
use bsg_manycore.Kernels.Stores.{put, perform}

-- the fields of chained_tag_s
abbrev pub value_of : ℕ → ℕ
value_of word = word % 2 ^ 8

abbrev pub rounds_of : ℕ → ℕ
rounds_of word = word / 2 ^ 8 % 2 ^ 8

abbrev pub cores_of : ℕ → ℕ
cores_of word = word / 2 ^ 16 % 2 ^ 16

-- `tag.cores += id; tag.rounds = rounds`
abbrev pub tagged : (rounds id word : ℕ) → ℕ
tagged rounds id word =
    value_of word + 2 ^ 8 * (rounds % 2 ^ 8) + 2 ^ 16 * ((cores_of word + id) % 2 ^ 16)

-- the loop of pass_proc and tag_pass_proc: two elements in each round
unfoldable pub send_pairs : (change : ℕ → ℕ) (local_ptr : Array) (num : ℕ) → List Store
unfolding for_strided
send_pairs change local_ptr num =
    for_strided 0 num 2 (λ i. (i, change (local_ptr i)) ∷ (i + 1, change (local_ptr (i + 1))) ∷ [])

-- The buffer of the next core after the call.
unfoldable pub pass_proc : (local_ptr remote_ptr : Array) (num rounds id : ℕ) → Array
unfolding send_pairs perform
pass_proc local_ptr remote_ptr num rounds id =
    let sent = perform (send_pairs (λ word. word) local_ptr num) remote_ptr in
    if num % 2 == 1 then put sent (num - 1) (local_ptr (num - 1)) else sent

-- The core's own buffer and that of the next core.
unfoldable pub tag_pass_proc : (local_ptr remote_ptr : Array) (num rounds id : ℕ) → Array × Array
unfolding send_pairs perform
tag_pass_proc local_ptr remote_ptr num rounds id =
    let sent = perform (send_pairs (tagged rounds id) local_ptr num) remote_ptr in
    let last = tagged rounds id (local_ptr (num - 1)) in
    (
      if num % 2 == 1 then put local_ptr (num - 1) last else local_ptr,
      if num % 2 == 1 then put sent (num - 1) last else sent,
    )

-- `local_buffer` and the buffer of the next core.
unfoldable pub copy_proc :
    (local_buffer local_ptr remote_ptr : Array) (num rounds id : ℕ) → Array × Array
unfolding for_strided perform pass_proc
copy_proc local_buffer local_ptr remote_ptr num rounds id = (
  perform (for_strided 0 num 1 (λ i. (i, local_ptr i) ∷ [])) local_buffer,
  pass_proc local_ptr remote_ptr num rounds id,
)

pub data Config : Type 0 where
  all_zero_funcs : Config
  all_pass_funcs : Config
  one_copy_funcs : Config
  all_tag_pass_funcs : Config

pub data ProcFunc : Type 0 where
  pass : ProcFunc
  tag_pass : ProcFunc
  copy : ProcFunc

-- the entries of func_array, which is 0 before
unfoldable pub init_func_array : Config → (num_tiles i : ℕ) → Option ProcFunc
init_func_array all_zero_funcs num_tiles i = none
init_func_array all_pass_funcs num_tiles i = if ltb i (num_tiles - 1) then some pass else none
init_func_array one_copy_funcs num_tiles i =
    if i == 1 then some copy else if ltb i (num_tiles - 1) then some pass else none
init_func_array all_tag_pass_funcs num_tiles i =
    if ltb i (num_tiles - 1) then some tag_pass else none

-- The call of func_array[id] in proc: the buffer of the next core after it.
unfoldable pub run_func :
    Option ProcFunc → (local_buffer local_ptr remote_ptr : Array) (num rounds id : ℕ) → Array
unfolding pass_proc tag_pass_proc copy_proc
run_func none local_buffer local_ptr remote_ptr num rounds id = remote_ptr
run_func (some pass) local_buffer local_ptr remote_ptr num rounds id =
    pass_proc local_ptr remote_ptr num rounds id
run_func (some tag_pass) local_buffer local_ptr remote_ptr num rounds id =
    (tag_pass_proc local_ptr remote_ptr num rounds id).1
run_func (some copy) local_buffer local_ptr remote_ptr num rounds id =
    (copy_proc local_buffer local_ptr remote_ptr num rounds id).1

-- the buffer of core 0, from the loop of main
abbrev pub first_buffer : Array
first_buffer i = i % 2 ^ 8
