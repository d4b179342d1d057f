-- ===== src/Primary/Monitor/Logged.antt =====
-- What the secondaries report is what the monitor logs.
use software_vsync_modulatio.Prelude.{
  ℕ, zero, suc, ◌+◌, ◌-◌, ◌≡◌, ◌≢◌, refl, ap, ◌∙◌, ◌≤◌, ◌⊎◌, inl, inr, true, false, some, List, [],
  ◌∷◌, ◌++◌, All, map, take, set, length, replicate, length-take, Bool-cases, ◌==◌, arith,
}
use software_vsync_modulatio.Prelude.Int.{ℤ}
use software_vsync_modulatio.Options.{Text}
use software_vsync_modulatio.Primary.{Header, sync_status_msg}
use software_vsync_modulatio.Primary.Monitor.{
  Datagram, Line, silent, broken, other_length, message, max_hostname_len, set_sync_status,
  c_string, is_status, line_of, log_lines, sync_monitor_thread_func,
}

-- What a secondary reports.
pub record Report : Type 0 where
  pub node_name : Text
  pub pipe : ℤ
  pub delta_us : ℤ
  pub timestamp_us : ℕ

-- What arrives: the report of a secondary, or any other turn of the loop.
pub data Arrival : Type 0 where
  report : Report → Arrival
  other : Datagram → Arrival

abbrev pub datagram : Arrival → Datagram
datagram (report r) = message (set_sync_status r.node_name r.pipe r.delta_us r.timestamp_us)
datagram (other d) = d

-- The text in an array of `n + 1` bytes: what stands before its first 0, or the first `n` bytes where
-- these have none.
abbrev pub TextIn : ℕ → Text → List ℕ → Type 0
TextIn n name array =
    All (λ (c : ℕ). c ≢ 0) name
    × (((rest : List ℕ) × (array ≡ name ++ (0 ∷ rest)) × (length name ≤ n))
        ⊎ ((last : ℕ) × (array ≡ name ++ (last ∷ [])) × (length name ≡ n)))

abbrev pub line_with : ℕ → ℤ → ℤ → Text → Line
line_with timestamp pipe delta name = record {
  timestamp_us = timestamp;
  node_name = name;
  pipe = pipe;
  delta_us = delta;
}

-- The lines wanted for one turn.
abbrev pub Entry : Arrival → List Line → Type 0
Entry (report r) ls = ls ≡ line_with r.timestamp_us r.pipe r.delta_us (take 63 r.node_name) ∷ []
Entry (other silent) ls = ls ≡ []
Entry (other broken) ls = ls ≡ []
Entry (other other_length) ls = ls ≡ []
Entry (other (message m)) ls =
    ((m.header ≢ sync_status_msg) × (ls ≡ []))
    ⊎ ((name : Text) × (m.header ≡ sync_status_msg)
        × TextIn 63 name m.hostname
        × (ls ≡ line_with m.timestamp_us m.pipe m.delta_us name ∷ []))

-- The lines wanted for a run, one turn after the other.
pub data Logs : List Arrival → List Line → Type 0 where
  none_left : Logs [] []
  next_turn :
      (a : Arrival) (rest : List Arrival) (ls ms : List Line)
      → Entry a ls
      → Logs rest ms
      → Logs (a ∷ rest) (ls ++ ms)

-- The name of a report has no 0, and the name in a message is an array of 64 bytes.
abbrev pub IsArrival : Arrival → Type 0
IsArrival (report r) = All (λ (c : ℕ). c ≢ 0) r.node_name
IsArrival (other silent) = Unit
IsArrival (other broken) = Unit
IsArrival (other other_length) = Unit
IsArrival (other (message m)) = length m.hostname ≡ 64

set-zeros : (n k : ℕ) → k ≡ n → set {A = ℕ} (replicate (suc k) 0) n 0 ≡ replicate {A = ℕ} (suc k) 0
set-zeros zero k h = refl
set-zeros (suc n) zero h = absurd (omega arith)
set-zeros (suc n) (suc k) h = ap (λ (ys : List ℕ). 0 ∷ ys) (set-zeros n k (omega arith))

-- The last byte of the padded name is a 0 already.
set-padding :
    (xs : List ℕ) (n k : ℕ)
    → length xs + k ≡ n
    → set (xs ++ replicate (suc k) 0) n 0 ≡ xs ++ replicate (suc k) 0
set-padding [] n k h = set-zeros n k (omega arith)
set-padding (x ∷ xs) zero k h = absurd (omega arith)
set-padding (x ∷ xs) (suc n) k h = ap (λ (ys : List ℕ). x ∷ ys) (set-padding xs n k (omega arith))

c_string-padding :
    (xs : List ℕ) (k : ℕ) → All (λ (c : ℕ). c ≢ 0) xs → c_string (xs ++ replicate (suc k) 0) ≡ xs
unfolding c_string
c_string-padding [] k h = refl
c_string-padding (x ∷ xs) k (h, t) = rw (c_string-padding xs k t) (ground (arith, h))

All-take : (n : ℕ) (xs : List ℕ) → All (λ (c : ℕ). c ≢ 0) xs → All (λ (c : ℕ). c ≢ 0) (take n xs)
All-take zero xs h = tt
All-take (suc n) [] h = tt
All-take (suc n) (x ∷ xs) (h, t) = (h, All-take n xs t)

-- The name that is sent is logged up to 63 bytes.
logged_name :
    (r : Report)
    → All (λ (c : ℕ). c ≢ 0) r.node_name
    → (line_of (set_sync_status r.node_name r.pipe r.delta_us r.timestamp_us)).node_name
      ≡ take 63 r.node_name
unfolding line_of set_sync_status
logged_name r h =
    let name = take 63 r.node_name in
    let k : ℕ = 63 - length name in
    let size : max_hostname_len - length name ≡ suc k = omega (arith, length-take 63 r.node_name) in
    rw size (
      ap c_string (set-padding name 63 k (omega (arith, length-take 63 r.node_name)))
      ∙ c_string-padding name k (All-take 63 r.node_name h))

c_string-TextIn :
    (array : List ℕ) (n : ℕ) → length array ≡ suc n → TextIn n (c_string (set array n 0)) array
unfolding c_string
c_string-TextIn [] n h = absurd (omega arith)
c_string-TextIn (x ∷ []) zero h = (tt, inr (x, refl, refl))
c_string-TextIn (x ∷ y ∷ xs) zero h = absurd (omega arith)
c_string-TextIn (x ∷ xs) (suc n) h = elim (Bool-cases (x == 0)) [
  | inl e ↦ rw e (tt, inl (xs, ground arith, omega arith))
  | inr e ↦
      let (nonzero, shape) = c_string-TextIn xs n (omega arith) in
      rw e (
        (ground arith, nonzero),
        elim shape [
          | inl (rest, eq, le) ↦ inl (rest, ap (λ (ys : List ℕ). x ∷ ys) eq, omega arith)
          | inr (last, eq, le) ↦ inr (last, ap (λ (ys : List ℕ). x ∷ ys) eq, omega arith)
        ],
      )
]

is_status-header : (h : Header) → is_status h ≡ true → h ≡ sync_status_msg
unfolding is_status
is_status-header Header.ack e = absurd (cc)
is_status-header Header.nack e = absurd (cc)
is_status-header Header.vsync_msg e = absurd (cc)
is_status-header Header.close_msg e = absurd (cc)
is_status-header sync_status_msg e = refl

not_status-header : (h : Header) → is_status h ≡ false → h ≢ sync_status_msg
unfolding is_status
not_status-header h e = λ (same : h ≡ sync_status_msg). ground arith

-- The lines of one turn.
log_one :
    (a : Arrival)
    → IsArrival a
    → (ls : List Line) × Entry a ls
      × ((ds : List Datagram) → log_lines (datagram a ∷ ds) ≡ ls ++ log_lines ds)
unfolding log_lines is_status set_sync_status line_of
log_one (report r) h = (
  line_with r.timestamp_us r.pipe r.delta_us (take 63 r.node_name) ∷ [],
  refl,
  λ ds.
      ap (λ (l : Line). l ∷ log_lines ds)
        (ap (line_with r.timestamp_us r.pipe r.delta_us) (logged_name r h)),
)
log_one (other silent) h = ([], refl, λ ds. refl)
log_one (other broken) h = ([], refl, λ ds. refl)
log_one (other other_length) h = ([], refl, λ ds. refl)
log_one (other (message m)) h = elim (Bool-cases (is_status m.header)) [
  | inl e ↦ (
    line_of m ∷ [],
    inr ((line_of m).node_name, is_status-header m.header e, c_string-TextIn m.hostname 63 h, refl),
    λ ds. rw e refl,
  )
  | inr e ↦ ([], inl (not_status-header m.header e, refl), λ ds. rw e refl)
]

log_lines-Logs :
    (arrivals : List Arrival)
    → All IsArrival arrivals
    → Logs arrivals (log_lines (map datagram arrivals))
unfolding log_lines
log_lines-Logs [] h = none_left
log_lines-Logs (a ∷ rest) (h, t) =
    let (ls, entry, step) = log_one a h in
    rw (step (map datagram rest)) (next_turn a rest ls _ entry (log_lines-Logs rest t))

-- When the file opens and the socket is made and bound, whatever arrives: the log has one line for
-- each message with the header of a status, in the order of their arrival, and no other line; the line
-- has the name up to its first 0, or 63 bytes of it where these have none. The reports of
-- secondaries, whose names have no 0, are such messages, with the name of the node cut to 63 bytes.
-- The file and the socket are closed in the end.
pub monitor_thread-reported :
    (arrivals : List Arrival)
    → All IsArrival arrivals
    → (lines : List Line) × Logs arrivals lines
      × (sync_monitor_thread_func true true true (map datagram arrivals)
          ≡ record { csv = some lines; csv_open = false; socket_open = false })
unfolding sync_monitor_thread_func
monitor_thread-reported arrivals h =
    (log_lines (map datagram arrivals), log_lines-Logs arrivals h, refl)
