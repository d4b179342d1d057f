-- ===== src/Drm.antt =====
-- os/linux/drm_platform_linux.cpp: the timestamps of vblanks. What libdrm and the kernel do is an
-- input: the flags of its header, the results of its calls, and the vblank events of each poll.
pub mod Stored
mod Tests
use software_vsync_modulatio.Prelude.{
  ℕ, zero, suc, ◌+◌, ◌-◌, ◌*◌, ◌/◌, ◌%◌, ◌^◌, Bool, true, false, not, ◌||◌, List, [], ◌∷◌, get_or,
  set, bit_and, bit_or, ltb, if◌then◌else◌,
}
use software_vsync_modulatio.Prelude.Int.{ℤ, pos, pos_part, ltb_ℤ}
use software_vsync_modulatio.Double.{Double}
use software_vsync_modulatio.Mmio.{Mmio}

-- What the handler is given with an event: the time of the event, and `CLOCK_REALTIME` when it
-- runs, which only the hardware timestamps need.
pub record VblEvent : Type 0 where
  pub sec : ℕ
  pub usec : ℕ
  pub real_sec : ℕ
  pub real_nsec : ℕ

-- `os_vbl_info`; the size is positive where the handler runs, and the pipe is from 0 to 3.
pub record VblInfo : Type 0 where
  pub vsync_array : List ℕ
  pub size : ℕ
  pub counter : ℕ
  pub pipe : ℕ
  pub hardware_ts : Bool

-- `DRM_VBLANK_HIGH_CRTC_SHIFT`, `DRM_VBLANK_HIGH_CRTC_MASK` and `DRM_VBLANK_SECONDARY`.
pub record DrmFlags : Type 0 where
  pub high_crtc_shift : ℕ
  pub high_crtc_mask : ℕ
  pub secondary : ℕ

-- `TIME_IN_USEC`
abbrev pub time_in_usec : ℕ → ℕ → ℕ
time_in_usec sec usec = (1000000 * sec + usec) % 2 ^ 64

-- `pipe_timestamp_regs`, the low and the high register of a pipe.
abbrev pub pipe_timestamp_regs : List (ℕ × ℕ)
pipe_timestamp_regs =
    (0x46300, 0x46304) ∷ ((0x46308, 0x4630C) ∷ ((0x46310, 0x46314) ∷ ((0x46318, 0x4631C) ∷ [])))

-- The flags that select a pipe in a request; an `int` from 2 to 2 ^ 30 is shifted without overflow.
pub os_pipe_to_wait_for : DrmFlags → ℤ → ℕ
os_pipe_to_wait_for flags pipe =
    if ltb_ℤ (pos 1) pipe
    then bit_and (pos_part pipe * 2 ^ flags.high_crtc_shift) flags.high_crtc_mask
    else (if ltb_ℤ (pos 0) pipe then flags.secondary else 0)

module _ {W D : Type 0} (f : Double W) (mmio : Mmio D) where
  open mmio use {read_offset_dword}

  -- A 64-bit value in two registers, the upper one read first.
  pub read_pair : ℕ → ℕ → D → ℕ × D
  read_pair high low d =
      let (h, d₁) = read_offset_dword high d in
      let (l, d₂) = read_offset_dword low d₁ in (bit_or (h * 2 ^ 32 % 2 ^ 64) l, d₂)

  -- The timestamp of a vblank in microseconds.
  pub timestamp_of : Bool → ℕ → VblEvent → D → ℕ × D
  unfolding read_pair
  timestamp_of false pipe e d = (time_in_usec e.sec e.usec, d)
  timestamp_of true pipe e d =
      let (low, high) = get_or pipe_timestamp_regs pipe (0, 0) in
      let (at_vblank, d₁) = read_pair high low d in
      let (live, d₂) = read_pair 0x462F8 0x462F4 d₁ in
      let realtime_us = (e.real_sec * 1000000 + e.real_nsec / 1000) % 2 ^ 64 in
      let ticks = (live + 2 ^ 64 - at_vblank) % 2 ^ 64 in
      let elapsed = pos_part (f.to_int (f.div (f.of_int (pos ticks)) (f.literal 384 1))) % 2 ^ 64 in
      ((realtime_us + 2 ^ 64 - elapsed) % 2 ^ 64, d₂)

  -- The handler, which then asks for the next event.
  pub vblank_handler : VblEvent → VblInfo × D → VblInfo × D
  unfolding timestamp_of
  vblank_handler e (info, d) =
      let (t, d') = timestamp_of info.hardware_ts info.pipe e d in
      if ltb info.counter info.size
      then (
        record info {
          vsync_array = set info.vsync_array info.counter t;
          counter = info.counter + 1;
        },
        d',
      )
      else (info, d)

  -- The handler for each event that `drmHandleEvent` reads.
  pub handle_all : List VblEvent → VblInfo × D → VblInfo × D
  handle_all [] s = s
  handle_all (e ∷ es) s = handle_all es (vblank_handler e s)

-- One poll: `select` times out or fails, `drmHandleEvent` fails, or it handles some events.
pub data Poll : Type 0 where
  silent broken : Poll
  handles : List VblEvent → Poll

-- What happens before the polls.
pub record Setup : Type 0 where
  pub device_given : Bool
  pub array_given : Bool
  pub opens : Bool
  pub first_request : Bool

module _ {W D : Type 0} (f : Double W) (mmio : Mmio D) where
  -- The loop from `i` with `left` rounds to go: the result, the information and the device.
  pub poll_loop : (ℕ → Poll) → ℕ → ℕ → VblInfo × D → ℤ × VblInfo × D
  poll_loop polls zero i (info, d) = (pos 0, info, d)
  poll_loop polls (suc left) i (info, d) = elim (polls i) [
    | silent ↦ poll_loop polls left (i + 1) (info, d)
    | broken ↦ (pos 1, info, d)
    | handles es ↦ poll_loop polls left (i + 1) (handle_all f mmio es (info, d))
  ]

  -- The result, the caller's array and the device.
  pub os_get_vsync : Setup → (ℕ → Poll) → List ℕ → ℤ → ℕ → Bool → D → ℤ × List ℕ × D
  unfolding poll_loop
  os_get_vsync setup polls va size pipe hardware_ts d =
      if not setup.device_given || (not setup.array_given || ltb_ℤ size (pos 1))
      then (pos 1, va, d)
      else (if not setup.opens || not setup.first_request
          then (pos 1, va, d)
          else let info : VblInfo = record {
            vsync_array = va;
            size = pos_part size;
            counter = 0;
            pipe = pipe;
            hardware_ts = hardware_ts;
          } in
            let (ret, info', d') = poll_loop polls (pos_part size) 0 (info, d) in
            (ret, info'.vsync_array, d'))
