-- ===== src/Cleaner/Control.antt =====
-- What a client may rely on: the abstract view of the daemon that the requests of sbin/cleanerd.c act
-- on, and what each request means for it.
pub mod Decode
pub mod Refine
pub mod Handle
use nilfs_utils.Base.{
  Option, some, none, Result, ok, err, fault, unset, false, ◌&&◌, ℕ, ◌+◌, ◌*◌, ◌≡◌, Bool, true,
  List, [], ◌∷◌, ltb, ◌==◌, ◌||◌, if◌then◌else◌, Errno, einval, eopnotsupp, length, take, drop, u32,
  u64, ℤ, pos, negsuc,
}
use nilfs_utils.Cleaner.{Cleanerd, Config}
use nilfs_utils.Cleaner.Args.{CleanerArgs}
use nilfs_utils.Cleaner.Accept.{acceptable}
use nilfs_utils.Cleaner.Messages.{Response, Mailbox, ack, nack, strnlen}

pub data Mode : Type 0 where
  suspended idle automatic manual : Mode

-- the value of `running`
abbrev pub code : Mode → ℤ
code suspended = negsuc 0
code idle = pos 0
code automatic = pos 1
code manual = pos 2

-- What a client can see.
pub record View : Type 0 where
  pub mode : Mode
  pub stopping : Bool
  pub jobs : ℕ

pub record IsView (c : Cleanerd) (v : View) : Type 0 where
  pub mode : c.running ≡ code v.mode
  pub stopping : c.shutdown ≡ v.stopping
  pub jobs : c.jobid ≡ v.jobs

-- The meaning of a message; `noise` is a message too short for its header or its payload. A reload reads
-- the file with the path given, or the one of the command line.
pub data Order : Type 0 where
  query start suspend resume stop shutdown noise : Order
  reload : Option (List ℕ) → Order
  refuse : Errno → Order

abbrev pub resumed : Mode → Mode
resumed suspended = idle
resumed idle = idle
resumed automatic = automatic
resumed manual = manual

abbrev pub stopped : Mode → Mode
stopped suspended = idle
stopped idle = idle
stopped automatic = automatic
stopped manual = idle

abbrev pub obey : Order → View → View
obey query v = v
obey start v = record v { mode = manual; jobs = u64 (v.jobs + 1) }
obey suspend v = record v { mode = suspended }
obey resume v = record v { mode = resumed v.mode }
obey (reload file) v = v
obey stop v = record v { mode = stopped v.mode }
obey shutdown v = record v { stopping = true }
obey noise v = v
obey (refuse e) v = v

-- NILFS_CLEANER_STATUS_IDLE, _RUNNING and _SUSPENDED
abbrev pub status_of : Mode → ℕ
status_of suspended = 2
status_of idle = 0
status_of automatic = 1
status_of manual = 1

-- The response to a reload: whether the file could be read.
abbrev pub reload_response : Result Config → Option Response
reload_response (ok cf) = some ack
reload_response (err e) = some (nack e)
reload_response fault = none

-- The response that a client is owed for an order, from a daemon that looked like `v` before, when the
-- configuration reads as `read` has it. Noise is not answered.
abbrev pub response_to : (Option (List ℕ) → Result Config) → Order → View → Option Response
response_to read query v = some (record ack { status = status_of v.mode })
response_to read start v = some (record ack { job = u32 (u64 (v.jobs + 1)) })
response_to read suspend v = some ack
response_to read resume v = some ack
response_to read stop v = some ack
response_to read shutdown v = some ack
response_to read noise v = none
response_to read (reload file) v = reload_response (read file)
response_to read (refuse e) v = some (nack e)

-- Is the queue of the client `uuid` the one that is open?
abbrev pub knows : Option ℕ → ℕ → Bool
knows none uuid = false
knows (some known) uuid = known == uuid

-- A response goes to the queue of the client `uuid`, which is opened first if another one, or none, was
-- open. It fails if that queue cannot be opened, which leaves none open, or if it cannot be sent.
abbrev pub Delivers : Mailbox → ℕ → Option ℕ → Option Response → Cleanerd × Result Response → Type 0
Delivers box uuid client none r = (r.1 ≡ err unset) × ((r.0).client ≡ client)
Delivers box uuid client (some res) r =
    (r.1 ≡ (if (knows client uuid || box.opens) && box.sends then ok res else err unset))
    × ((r.0).client ≡ (if knows client uuid || box.opens then some uuid else none))

-- The number that bytes write, the lowest first.
abbrev pub number : List ℕ → ℕ
number [] = 0
number (b ∷ bytes) = b + 256 * number bytes

-- the number in the `n` bytes at a position
abbrev pub field : List ℕ → ℕ → ℕ → ℕ
field buf at n = number (take n (drop at buf))

abbrev pub args_of : List ℕ → CleanerArgs
args_of buf = record {
  valid = field buf 0 2;
  npasses = field buf 2 2;
  nsegments_per_clean = field buf 6 2;
  min_reclaimable_blocks_unit = field buf 9 1;
  cleaning_interval = field buf 10 2;
  cleaning_interval_nsec = field buf 12 4;
  protection_period = field buf 16 8;
  min_reclaimable_blocks = field buf 44 4;
}

unfoldable pub run_order : ℕ → List ℕ → Order
run_order blocks_per_segment buf =
    if ltb (length buf) 48
    then refuse einval
    else if acceptable blocks_per_segment (args_of buf)
    then start
    else refuse einval

-- The order of a reload: an empty payload, or one that is an empty string, names no file; a string has
-- to end within its payload.
unfoldable pub reload_order : List ℕ → Order
reload_order buf =
    if length buf == 0 || length buf == 1 && strnlen buf == 0
    then reload none
    else if ltb (strnlen buf) (length buf)
    then reload (some buf)
    else refuse einval

-- The order of a command with its payload.
unfoldable pub order : ℕ → ℕ → List ℕ → Order
order blocks_per_segment cmd buf =
    if cmd == 0
    then query
    else if cmd == 1
    then run_order blocks_per_segment buf
    else if cmd == 2
    then suspend
    else if cmd == 3
    then resume
    else if cmd == 4
    then refuse eopnotsupp
    else if cmd == 5
    then reload_order buf
    else if cmd == 6
    then refuse eopnotsupp
    else if cmd == 7
    then stop
    else if cmd == 8
    then shutdown
    else refuse einval

unfoldable pub message_order : ℕ → List ℕ → Order
message_order blocks_per_segment message =
    if ltb (length message) 24 || ltb (length message) (24 + field message 4 4)
    then noise
    else order blocks_per_segment (field message 0 4) (drop 24 message)
