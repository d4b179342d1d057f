-- ===== src/Primary.antt =====
-- swgenlock/primary.cpp: the rolling buffer of vblank timestamps and the answers to the secondary
-- systems. The mutex makes each access to the buffer one step.
pub mod Collector
pub mod Answers
pub mod Monitor
pub mod Serve
use software_vsync_modulatio.Prelude.{
  ℕ, zero, suc, ◌+◌, ◌-◌, Bool, true, false, Option, none, some, List, [], ◌∷◌, ◌++◌, ltb, leb,
  length, drop, take, replicate, if◌then◌else◌, ◌||◌, ◌==◌,
}
use software_vsync_modulatio.Prelude.Int.{ℤ, pos, ltb_ℤ}
use software_vsync_modulatio.Prelude.Signed.{magnitude}

-- `pop_front` on the buffer
abbrev pub pop_front : List ℕ → List ℕ
pop_front [] = []
pop_front (t ∷ ts) = ts

-- The body of `vsync_collector_thread` under the lock.
pub collect_one : ℕ → List ℕ → ℕ → List ℕ
collect_one max_count buffer ts =
    (if leb max_count (length buffer) then pop_front buffer else buffer) ++ (ts ∷ [])

-- The collector's loop; `none` is a failing `get_vsync`, after which it tries again.
pub vsync_collector_thread : ℕ → List (Option ℕ) → List ℕ → List ℕ
vsync_collector_thread max_count [] buffer = buffer
vsync_collector_thread max_count (none ∷ rest) buffer = vsync_collector_thread max_count rest buffer
vsync_collector_thread max_count (some ts ∷ rest) buffer =
    vsync_collector_thread max_count rest (collect_one max_count buffer ts)

-- `get_last_vsyncs`: copies from `end() - count` to `end()`.
pub get_last_vsyncs : List ℕ → ℕ → Option (List ℕ)
get_last_vsyncs buffer count =
    if ltb (length buffer) count then none else some (drop (length buffer - count) buffer)

abbrev pub max_timestamps : ℕ
max_timestamps = 100

-- `header_t`
pub data Header : Type 0 where
  ack nack vsync_msg close_msg sync_status_msg : Header

-- What a secondary system sends.
pub record Request : Type 0 where
  pub header : Header
  pub vblank_count : ℤ

-- What `do_msg` meets in one round: the message (`none` if receiving fails), the buffer at that
-- time, and whether sending succeeds.
pub record Exchange : Type 0 where
  pub received : Option Request
  pub buffer : List ℕ
  pub sent_ok : Bool

-- A zeroed array of `VSYNC_MAX_TIMESTAMPS` with the timestamps copied to its start.
pub fill : List ℕ → List ℕ
fill va = va ++ replicate (max_timestamps - length va) 0

-- `vblank_count <= 0 || vblank_count > VSYNC_MAX_TIMESTAMPS`
pub is_bad_count : ℤ → Bool
is_bad_count n = ltb_ℤ n (pos 1) || ltb_ℤ (pos max_timestamps) n

-- The array that a round sends, if it comes to that.
pub answer : Request → List ℕ → Option (List ℕ)
answer r buffer =
    if is_bad_count r.vblank_count
    then none
    else elim (get_last_vsyncs buffer (magnitude r.vblank_count)) [
      | none ↦ none
      | some va ↦ some (fill va)
    ]

pub is_ack : Header → Bool
is_ack ack = true
is_ack nack = false
is_ack vsync_msg = false
is_ack close_msg = false
is_ack sync_status_msg = false

-- The return value, if the loop ends within the rounds observed, and the arrays handed to
-- `send_msg`.
pub record Reply : Type 0 where
  pub ret : Option ℕ
  pub sent : List (List ℕ)

-- A round after the array is known.
pub after_answer : Request → Bool → List ℕ → Reply → Reply
after_answer r sent_ok va rest =
    if sent_ok
    then (if is_ack r.header
        then record { ret = some 0; sent = va ∷ [] }
        else record rest { sent = va ∷ rest.sent })
    else record { ret = some 1; sent = va ∷ [] }

pub do_msg : List Exchange → Reply
do_msg [] = record { ret = none; sent = [] }
do_msg (x ∷ xs) =
    let rest = do_msg xs in
    elim x.received [
      | none ↦ record { ret = some 1; sent = [] }
      | some r ↦ elim (answer r x.buffer) [
        | none ↦ record { ret = some 1; sent = [] }
        | some va ↦ after_answer r x.sent_ok va rest
      ]
    ]
