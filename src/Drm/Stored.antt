-- ===== src/Drm/Stored.antt =====
-- What `os_get_vsync` leaves in the caller's array.
use mathlib.Core.List.{append-nil, append_assoc}
use software_vsync_modulatio.Prelude.{
  ℕ, zero, suc, ◌+◌, ◌≤◌, ◌<◌, ◌≡◌, refl, ap, ap₂, ◌∙◌, Bool, true, false, not, ◌||◌, ◌&&◌, List,
  [], ◌∷◌, ◌++◌, length, take, drop, set, length-append, inl, inr, ◌⊎◌, ltb, arith, if◌then◌else◌,
}
use software_vsync_modulatio.Prelude.Int.{ℤ, pos, negsuc, pos_part, ltb_ℤ}
use software_vsync_modulatio.Prelude.Signed.{◌==ℤ◌}
use software_vsync_modulatio.Double.{Double}
use software_vsync_modulatio.Mmio.{Mmio}
use software_vsync_modulatio.Drm.{
  VblEvent, VblInfo, Poll, silent, broken, handles, Setup, timestamp_of, vblank_handler, handle_all,
  poll_loop, os_get_vsync,
}

-- The events of the polls before one that fails, and whether one does.
pub delivered : (ℕ → Poll) → ℕ → ℕ → List VblEvent
delivered polls zero i = []
delivered polls (suc left) i = elim (polls i) [
  | silent ↦ delivered polls left (i + 1)
  | broken ↦ []
  | handles es ↦ es ++ delivered polls left (i + 1)
]

pub fails : (ℕ → Poll) → ℕ → ℕ → Bool
fails polls zero i = false
fails polls (suc left) i = elim (polls i) [
  | silent ↦ fails polls left (i + 1)
  | broken ↦ true
  | handles es ↦ fails polls left (i + 1)
]

-- A write behind what has been written.
set-next :
    (done va : List ℕ) (t : ℕ)
    → length done < length va
    → set (done ++ drop (length done) va) (length done) t
      ≡ (done ++ (t ∷ [])) ++ drop (suc (length done)) va
set-next [] [] t h = absurd (omega arith)
set-next [] (v ∷ va) t h = refl
set-next (x ∷ done) [] t h = absurd (omega arith)
set-next (x ∷ done) (v ∷ va) t h = ap (λ (l : List ℕ). x ∷ l) (set-next done va t (omega arith))

Poll-cases : (p : Poll) → (p ≡ silent) ⊎ ((p ≡ broken) ⊎ ((es : List VblEvent) × (p ≡ handles es)))
Poll-cases silent = inl refl
Poll-cases broken = inr (inl refl)
Poll-cases (handles es) = inr (inr (es, refl))

module _ {W D : Type 0} (f : Double W) (mmio : Mmio D) where
  handle_all-append :
      (es es' : List VblEvent) (s : VblInfo × D)
      → handle_all f mmio (es ++ es') s ≡ handle_all f mmio es' (handle_all f mmio es s)
  unfolding handle_all
  handle_all-append [] es' s = refl
  handle_all-append (e ∷ es) es' s = handle_all-append es es' (vblank_handler f mmio e s)

  -- The loop handles the events of its polls in order.
  poll_loop-delivered :
      (polls : ℕ → Poll) (left i : ℕ) (info : VblInfo) (d : D)
      → poll_loop f mmio polls left i (info, d) ≡ (
        if fails polls left i then pos 1 else pos 0,
        (handle_all f mmio (delivered polls left i) (info, d)).0,
        (handle_all f mmio (delivered polls left i) (info, d)).1,
      )
  unfolding poll_loop delivered fails handle_all
  poll_loop-delivered polls zero i info d = refl
  poll_loop-delivered polls (suc left) i info d = elim (Poll-cases (polls i)) [
    | inl e ↦ rw (e, poll_loop, delivered, fails) (poll_loop-delivered polls left (i + 1) info d)
    | inr (inl e) ↦ rw (e, poll_loop, delivered, fails) refl
    | inr (inr (es, e)) ↦
        rw (e, poll_loop, delivered, fails)
          (poll_loop-delivered polls left (i + 1) (handle_all f mmio es (info, d)).0
              (handle_all f mmio es (info, d)).1
            ∙ rw (handle_all-append es (delivered polls left (i + 1)) (info, d)) refl)
  ]

  -- The timestamps of a list of events.
  pub stamps : Bool → ℕ → List VblEvent → D → List ℕ × D
  stamps hw pipe [] d = ([], d)
  stamps hw pipe (e ∷ es) d =
      let (t, d₁) = timestamp_of f mmio hw pipe e d in
      let (ts, d₂) = stamps hw pipe es d₁ in (t ∷ ts, d₂)

  module _ (va : List ℕ) (n pipe : ℕ) (hw : Bool) (room : n ≤ length va) where
    -- The information when the timestamps `done` have been stored.
    holding : List ℕ → VblInfo
    holding done = record {
      vsync_array = done ++ drop (length done) va;
      size = n;
      counter = length done;
      pipe = pipe;
      hardware_ts = hw;
    }

    holding-next :
        (done : List ℕ) (t : ℕ)
        → length done < n
        → record (holding done) {
          vsync_array = set (done ++ drop (length done) va) (length done) t;
          counter = length done + 1;
        }
          ≡ holding (done ++ (t ∷ []))
    unfolding holding
    holding-next done t h =
        ap₂ (λ (a : List ℕ) (c : ℕ). record (holding done) { vsync_array = a; counter = c })
          (set-next done va t (omega arith)
            ∙ ap (λ (m : ℕ). (done ++ (t ∷ [])) ++ drop m va) {x = suc (length done)}
                {y = length (done ++ (t ∷ []))} (omega (arith, length-append {0} done (t ∷ []))))
          (omega (arith, length-append {0} done (t ∷ [])))

    -- An event for which there is room.
    stored :
        (e : VblEvent) (done : List ℕ) (d : D)
        → length done < n
        → vblank_handler f mmio e (holding done, d) ≡ (
          holding (done ++ ((timestamp_of f mmio hw pipe e d).0 ∷ [])),
          (timestamp_of f mmio hw pipe e d).1,
        )
    unfolding vblank_handler
    stored e done d h =
        let free : ltb (length done) n ≡ true = ground arith in
        unfold holding in
        rw free (
          ap (λ (r : VblInfo). (r, (timestamp_of f mmio hw pipe e d).1))
            (holding-next done (timestamp_of f mmio hw pipe e d).0 h))

    handle_all-full :
        (es : List VblEvent) (done : List ℕ) (d : D)
        → length done ≡ n
        → handle_all f mmio es (holding done, d) ≡ (holding done, d)
    unfolding handle_all vblank_handler holding
    handle_all-full [] done d h = refl
    handle_all-full (e ∷ es) done d h =
        let full : ltb (length done) n ≡ false = ground arith in
        rw full (handle_all-full es done d h)

    handle_all-holding :
        (k : ℕ) (es : List VblEvent) (done : List ℕ) (d : D)
        → length done + k ≡ n
        → handle_all f mmio es (holding done, d)
          ≡ (holding (done ++ (stamps hw pipe (take k es) d).0), (stamps hw pipe (take k es) d).1)
    unfolding stamps handle_all
    handle_all-holding zero es done d h =
        handle_all-full es done d (omega arith) ∙ rw (append-nil done) refl
    handle_all-holding (suc k) [] done d h = rw (append-nil done) refl
    handle_all-holding (suc k) (e ∷ es) done d h =
        let t : ℕ = (timestamp_of f mmio hw pipe e d).0 in
        let d₁ : D = (timestamp_of f mmio hw pipe e d).1 in
        ap (handle_all f mmio es) (stored e done d (omega arith))
        ∙ handle_all-holding k es (done ++ (t ∷ [])) d₁
            (omega (arith, length-append {0} done (t ∷ [])))
        ∙ rw (append_assoc done (t ∷ []) (stamps hw pipe (take k es) d₁).0) refl

abbrev pub is_ready : Setup → Bool
is_ready s = s.device_given && (s.array_given && (s.opens && s.first_request))

module _ {W D : Type 0} (f : Double W) (mmio : Mmio D) (setup : Setup) (polls : ℕ → Poll)
    (va : List ℕ) (n pipe : ℕ) (hw : Bool) (d : D) where
  -- What is stored of the events that are delivered.
  abbrev pub timestamps : List ℕ
  timestamps = (stamps f mmio hw pipe (take n (delivered polls n 0)) d).0

  -- What the caller sees of the end of the loop.
  seen : ℤ × VblInfo × D → ℤ × List ℕ × D
  seen r = (r.0, r.1.vsync_array, r.2)

  after_setup :
      is_ready setup ≡ true
      → 0 < n
      → (room : n ≤ length va)
      → os_get_vsync f mmio setup polls va (pos n) pipe hw d
        ≡ seen (poll_loop f mmio polls n 0 (holding f mmio va n pipe hw room [], d))
  unfolding os_get_vsync holding seen
  after_setup ready some_wanted room =
      let valid : not setup.device_given || (not setup.array_given || ltb_ℤ (pos n) (pos 1))
          ≡ false =
        ground arith in
      let open_ok : not setup.opens || not setup.first_request ≡ false = ground arith in
      rw (valid, open_ok) refl

  polls_done :
      (room : n ≤ length va)
      → poll_loop f mmio polls n 0 (holding f mmio va n pipe hw room [], d) ≡ (
        if fails polls n 0 then pos 1 else pos 0,
        holding f mmio va n pipe hw room timestamps,
        (stamps f mmio hw pipe (take n (delivered polls n 0)) d).1,
      )
  polls_done room =
      poll_loop-delivered f mmio polls n 0 (holding f mmio va n pipe hw room []) d
      ∙ ap (λ (s : VblInfo × D). (if fails polls n 0 then pos 1 else pos 0, s.0, s.1))
          (handle_all-holding f mmio va n pipe hw room n (delivered polls n 0) [] d (omega arith))

  -- When the arguments are valid, the array has room for a positive number of timestamps, the
  -- device opens and the first request succeeds: the result is 1 exactly when one of the polls
  -- fails, and else 0; the array begins with the timestamps of the first events that the polls up
  -- to a failure deliver, as many as were asked for at most, in order, and the rest of it is as
  -- before.
  pub os_get_vsync-stored :
      is_ready setup ≡ true
      → 0 < n
      → n ≤ length va
      → ((os_get_vsync f mmio setup polls va (pos n) pipe hw d).0
          ≡ (if fails polls n 0 then pos 1 else pos 0))
        × ((os_get_vsync f mmio setup polls va (pos n) pipe hw d).1
            ≡ timestamps ++ drop (length timestamps) va)
  unfolding seen holding
  os_get_vsync-stored ready some_wanted room =
      let e = after_setup ready some_wanted room ∙ ap seen (polls_done room) in
      (ap (λ (r : ℤ × List ℕ × D). r.0) e, ap (λ (r : ℤ × List ℕ × D). r.1) e)

module _ {W D : Type 0} (f : Double W) (mmio : Mmio D) where
  -- Never -1, whatever the arguments.
  pub os_get_vsync-ne-minus_one :
      (setup : Setup) (polls : ℕ → Poll) (va : List ℕ) (size : ℤ) (pipe : ℕ) (hw : Bool) (d : D)
      → ((os_get_vsync f mmio setup polls va size pipe hw d).0 ==ℤ negsuc 0) ≡ false
  unfolding os_get_vsync
  os_get_vsync-ne-minus_one setup polls va size pipe hw d =
      let info : VblInfo = record {
        vsync_array = va;
        size = pos_part size;
        counter = 0;
        pipe = pipe;
        hardware_ts = hw;
      } in
      ground (
        arith,
        ap (λ (r : ℤ × VblInfo × D). r.0)
            (poll_loop-delivered f mmio polls (pos_part size) 0 info d),
      )
