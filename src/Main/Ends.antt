-- ===== src/Main/Ends.antt =====
-- What `main` holds at its end.
use mathlib.Core.List.{append_assoc, append-nil}
use software_vsync_modulatio.Prelude.{
  ℕ, ◌≡◌, refl, ap, sym, ◌∙◌, Bool, true, false, not, Option, none, some, List, [], ◌∷◌, ◌++◌, ◌==◌,
  ◌&&◌, ◌||◌, inl, inr, Bool-cases, arith, if◌then◌else◌,
}
use software_vsync_modulatio.Prelude.Int.{pos, negsuc, ltb_ℤ}
use software_vsync_modulatio.Prelude.Signed.{◌==ℤ◌}
use software_vsync_modulatio.Double.{Double}
use software_vsync_modulatio.SyncCommon.{is_not_zero}
use software_vsync_modulatio.Options.{parse_pipes_arg}
use software_vsync_modulatio.Main.{Mode, pri, sec, pipelock, other, Config}
use software_vsync_modulatio.Main.Flow.{
  Call, init_lib, uninit_lib, delete_server, stop_collector, check_vsync, reset_stats, set_clock,
  join_thread, start_collector, create_thread, Env, Run, after, stop, is_pipelock, is_among,
  prepare_pipes, context_of, create_threads, join_threads, run_threads, run_secondary, run_mode,
  init_and_run, check_and_run, run, front,
}

-- The library, the collector, and the threads that have not been joined, by their pipes.
pub record Held : Type 0 where
  pub lib : Bool
  pub collector : Bool
  pub threads : List ℕ

abbrev pub nothing : Held
nothing = record { lib = false; collector = false; threads = [] }

-- A join of the thread that was started first.
joined : ℕ → List ℕ → List ℕ
joined p [] = []
joined p (q ∷ qs) = if q == p then qs else q ∷ qs

hold : Call → Held → Held
unfolding joined
hold init_lib h = record h { lib = true }
hold uninit_lib h = record h { lib = false }
hold (start_collector p) h = record h { collector = true }
hold stop_collector h = record h { collector = false }
hold (create_thread ctx) h = record h { threads = h.threads ++ (ctx.pipe ∷ []) }
hold (join_thread p) h = record h { threads = joined p h.threads }
hold _ h = h

pub held : List Call → Held → Held
unfolding hold
held [] h = h
held (x ∷ xs) h = held xs (hold x h)

held-append : (xs ys : List Call) (h : Held) → held (xs ++ ys) h ≡ held ys (held xs h)
unfolding held
held-append [] ys h = refl
held-append (x ∷ xs) ys h = held-append xs ys (hold x h)

module _ {W : Type 0} (f : Double W) (env : Env) (c : Config W) where
  -- The pipes whose threads are created.
  created : List ℕ → List ℕ
  created [] = []
  created (p ∷ ps) = (if env.create_result p == 0 then p ∷ [] else []) ++ created ps

  context-pipe : (p : ℕ) → (context_of f env c p).pipe ≡ p
  unfolding context_of
  context-pipe p = ground arith

  held-create :
      (ps : List ℕ) (h : Held)
      → held (create_threads f env c ps) h ≡ record h { threads = h.threads ++ created ps }
  unfolding held create_threads created
  held-create [] h = ap (λ (l : List ℕ). record h { threads = l }) (sym (append-nil h.threads))
  held-create (p ∷ ps) h = elim (Bool-cases (env.create_result p == 0)) [
    | inl e ↦
        rw (e, context-pipe p)
          (held-create ps (record h { threads = h.threads ++ (p ∷ []) })
            ∙ ap (λ (l : List ℕ). record h { threads = l })
                (append_assoc h.threads (p ∷ []) (created ps)))
    | inr e ↦ rw e (held-create ps h)
  ]

  held-join :
      (ps : List ℕ) (h : Held)
      → h.threads ≡ created ps
      → held (join_threads f env c ps) h ≡ record h { threads = [] }
  unfolding held join_threads created joined
  held-join [] h e = ap (λ (l : List ℕ). record h { threads = l }) e
  held-join (p ∷ ps) h e = elim (Bool-cases (env.create_result p == 0)) [
    | inl t ↦ rw t (
        held-join ps (record h { threads = joined p h.threads })
          (ap (joined p) e ∙ rw t (ground arith)))
    | inr t ↦ rw t (held-join ps h (e ∙ rw t refl))
  ]

  -- A run that returns 0 from the state `h` holds nothing at its end.
  Releases : Held → Run → Type 0
  Releases h r = r.status ≡ 0 → held r.calls h ≡ nothing

  stop-Releases : (h : Held) → Releases h (stop 1)
  unfolding Releases
  stop-Releases h e = absurd (omega arith)

  if-Releases :
      (b : Bool) (h : Held) (r r' : Run)
      → Releases h r
      → Releases h r'
      → Releases h (if b then r else r')
  if-Releases true h r r' w w' = w
  if-Releases false h r r' w w' = w'

  after-Releases :
      (cs : List Call) (h h' : Held) (r : Run)
      → held cs h ≡ h'
      → Releases h' r
      → Releases h (after cs r)
  unfolding Releases
  after-Releases cs h h' r e w z = held-append cs r.calls h ∙ ap (held r.calls) e ∙ w z

  abbrev with_lib : Held
  with_lib = record { lib = true; collector = false; threads = [] }

  -- The threads are created and joined again.
  held-threads :
      (ps : List ℕ) (cs : List Call) (h : Held)
      → h.threads ≡ []
      → held (create_threads f env c ps ++ (join_threads f env c ps ++ cs)) h ≡ held cs h
  held-threads ps cs h e =
      held-append (create_threads f env c ps) (join_threads f env c ps ++ cs) h
      ∙ held-append (join_threads f env c ps) cs _
      ∙ ap (held cs) (
          ap (held (join_threads f env c ps)) (held-create ps h)
          ∙ held-join ps _ (ap (λ (l : List ℕ). l ++ created ps) e)
          ∙ ap (λ (l : List ℕ). record h { threads = l }) (sym e))

  pipelock_end :
      (ps : List ℕ)
      → held
          (start_collector c.primary_pipe
            ∷ (create_threads f env c ps
                ++ (join_threads f env c ps
                    ++ (stop_collector ∷ (uninit_lib ∷ (delete_server ∷ []))))))
          with_lib
        ≡ nothing
  unfolding held hold
  pipelock_end ps =
      held-threads ps (stop_collector ∷ (uninit_lib ∷ (delete_server ∷ [])))
        (record { lib = true; collector = true; threads = [] }) refl

  secondary_end :
      (ps : List ℕ)
      → held
          (create_threads f env c ps
            ++ (join_threads f env c ps ++ (uninit_lib ∷ (delete_server ∷ []))))
          with_lib
        ≡ nothing
  unfolding held hold
  secondary_end ps = held-threads ps (uninit_lib ∷ (delete_server ∷ [])) with_lib refl

  run_threads-Releases : (ps : List ℕ) → Releases with_lib (run_threads f env c ps)
  unfolding run_threads Releases
  run_threads-Releases ps =
      if-Releases (is_pipelock c.mode) with_lib _ _
        (if-Releases (ltb_ℤ c.primary_pipe (pos 0) || ltb_ℤ (pos 3) c.primary_pipe) with_lib _ _
          (stop-Releases with_lib) (λ e. pipelock_end ps))
        (λ e. secondary_end ps)

  prepare_pipes-Releases :
      (ps : List ℕ) (k : Run) → Releases with_lib k → Releases with_lib (prepare_pipes f env c ps k)
  unfolding prepare_pipes
  prepare_pipes-Releases [] k w = w
  prepare_pipes-Releases (p ∷ ps) k w =
      if-Releases (env.has_phy_name p) with_lib _ _
        (after-Releases _ with_lib with_lib _ (sets (is_not_zero f c.frequency))
          (prepare_pipes-Releases ps k w))
        (stop-Releases with_lib)
    where
      sets :
          (b : Bool)
          → held (reset_stats p ∷ (if b then set_clock p ∷ [] else [])) with_lib ≡ with_lib
      sets b = unfold held hold in ground arith

  run_secondary-Releases : (ps : List ℕ) → Releases with_lib (run_secondary f env c ps)
  unfolding run_secondary
  run_secondary-Releases ps =
      if-Releases (is_pipelock c.mode && is_among c.primary_pipe ps) with_lib _ _
        (stop-Releases with_lib) (prepare_pipes-Releases ps _ (run_threads-Releases ps))

  run_mode-Releases : (m : Mode) (ps : List ℕ) → Releases with_lib (run_mode f env c m ps)
  unfolding run_mode
  run_mode-Releases pri ps = unfold Releases held hold in λ e. refl
  run_mode-Releases sec ps = run_secondary-Releases ps
  run_mode-Releases pipelock ps = run_secondary-Releases ps
  run_mode-Releases other ps = stop-Releases with_lib

  init_and_run-Releases : (ps : List ℕ) → Releases nothing (init_and_run f env c ps)
  unfolding init_and_run
  init_and_run-Releases ps =
      after-Releases (init_lib ∷ []) nothing with_lib _ (unfold held hold in refl) (
        if-Releases (env.init_result == 0) with_lib _ _ (run_mode-Releases c.mode ps)
          (stop-Releases with_lib))

  check_and_run-Releases : (ps : List ℕ) → Releases nothing (check_and_run f env c ps)
  unfolding check_and_run
  check_and_run-Releases ps = if-Releases c.hardware_ts nothing _ _ (init_and_run-Releases ps) (
      after-Releases (check_vsync (front ps) ∷ []) nothing nothing _ (unfold held hold in refl) (
        if-Releases (not (env.vsync_result (front ps) ==ℤ negsuc 0) && env.clock_works) nothing _ _
          (init_and_run-Releases ps) (stop-Releases nothing)))

  run_with-Releases :
      (o : Option (List ℕ))
      → Releases nothing (elim o [ none ↦ stop 1 | some ps ↦ check_and_run f env c ps ])
  run_with-Releases none = stop-Releases nothing
  run_with-Releases (some ps) = check_and_run-Releases ps

  -- If `main` returns 0, its calls have left nothing open, whatever the options are and the calls
  -- return: the library is uninitialised, the collector is stopped, and every thread that was
  -- created has been joined, those that were not created being left out.
  pub run-releases : (run f env c).status ≡ 0 → held (run f env c).calls nothing ≡ nothing
  unfolding run Releases
  run-releases = run_with-Releases (parse_pipes_arg c.pipes_arg)
