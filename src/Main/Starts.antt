-- ===== src/Main/Starts.antt =====
-- Which threads `main` starts.
use mathlib.Core.Path.{subst, sym}
use mathlib.Core.List.{append_assoc, append-nil}
use software_vsync_modulatio.Prelude.{
  ℕ, suc, ◌≤◌, ◌≡◌, refl, ap, ◌∙◌, Bool, true, false, not, Option, none, some, List, [], ◌∷◌, ◌++◌,
  ◌==◌, ◌&&◌, ◌||◌, inl, inr, Bool-cases, arith, if◌then◌else◌,
}
use software_vsync_modulatio.Prelude.Int.{pos, negsuc, ltb_ℤ}
use software_vsync_modulatio.Prelude.Signed.{◌==ℤ◌}
use software_vsync_modulatio.Double.{Double}
use software_vsync_modulatio.SyncCommon.{is_not_zero}
use software_vsync_modulatio.Options.{parse_pipes_arg}
use software_vsync_modulatio.Options.Sorted.{Ascending, parse_pipes_arg-Ascending}
use software_vsync_modulatio.Main.{Mode, pri, sec, pipelock, other, Config}
use software_vsync_modulatio.Main.Flow.{
  ThreadCtx, Call, init_lib, check_vsync, reset_stats, set_clock, create_thread, Env, Run, after,
  stop, is_pipelock, is_among, prepare_pipes, context_of, create_threads, join_threads, run_threads,
  run_secondary, run_mode, init_and_run, check_and_run, run, front,
}

-- The contexts of the threads that are started.
starting : Call → List ThreadCtx
starting (create_thread ctx) = ctx ∷ []
starting _ = []

pub started : List Call → List ThreadCtx
unfolding starting
started [] = []
started (x ∷ xs) = starting x ++ started xs

-- Each thread has a pipe of its own, from `low` to 3, and the primary that the mode gives it: in
-- the pipelock mode a pipe that is not its own.
pub Fits : {W : Type 0} → Config W → ℕ → List ThreadCtx → Type 0
Fits c low [] = Unit {0}
Fits c low (ctx ∷ ctxs) =
    (low ≤ ctx.pipe)
    × (ctx.pipe ≤ 3)
    × (if is_pipelock c.mode
        then (ctx.primary_pipe ≡ c.primary_pipe) × ((pos ctx.pipe ==ℤ c.primary_pipe) ≡ false)
        else ctx.primary_pipe ≡ negsuc 0)
    × Fits c (suc ctx.pipe) ctxs

started-append : (xs ys : List Call) → started (xs ++ ys) ≡ started xs ++ started ys
unfolding started
started-append [] ys = refl
started-append (x ∷ xs) ys = simp (started-append xs ys, append_assoc)

module _ {W : Type 0} (f : Double W) (env : Env) (c : Config W) where
  -- A run starts only such threads.
  StartsWell : Run → Type 0
  StartsWell r = Fits c 0 (started r.calls)

  started-join_threads : (ps : List ℕ) → started (join_threads f env c ps) ≡ []
  unfolding started join_threads
  started-join_threads [] = refl
  started-join_threads (p ∷ ps) = elim (Bool-cases (env.create_result p == 0)) [
    | inl e ↦ rw e (started-join_threads ps)
    | inr e ↦ rw e (started-join_threads ps)
  ]

  Fits-weaken :
      (low low' : ℕ) (ctxs : List ThreadCtx) → low ≤ low' → Fits c low' ctxs → Fits c low ctxs
  unfolding Fits
  Fits-weaken low low' [] h fits = tt
  Fits-weaken low low' (ctx ∷ ctxs) h (p, q, r, s) = (omega arith, q, r, s)

  create_threads-Fits :
      (low : ℕ) (ps : List ℕ)
      → Ascending low ps
      → (is_pipelock c.mode && is_among c.primary_pipe ps) ≡ false
      → Fits c low (started (create_threads f env c ps))
  unfolding Fits started create_threads context_of is_among
  create_threads-Fits low [] a h = tt
  create_threads-Fits low (p ∷ ps) (a, b, r) h = elim (Bool-cases (env.create_result p == 0)) [
    | inl e ↦ elim (Bool-cases (is_pipelock c.mode)) [
      | inl m ↦
          rw (e, m) (a, b, (refl, ground arith), create_threads-Fits (suc p) ps r (ground arith))
      | inr m ↦ rw (e, m) (a, b, refl, create_threads-Fits (suc p) ps r (ground arith))
    ]
    | inr e ↦
        rw e (
          Fits-weaken low (suc p) _ (omega arith) (create_threads-Fits (suc p) ps r (ground arith)))
  ]

  -- Only the loop that creates threads starts any.
  only_created :
      (ps : List ℕ) (cs : List Call)
      → started cs ≡ []
      → started (create_threads f env c ps ++ (join_threads f env c ps ++ cs))
        ≡ started (create_threads f env c ps)
  only_created ps cs none_after =
      started-append (create_threads f env c ps) (join_threads f env c ps ++ cs)
      ∙ ap (λ (l : List ThreadCtx). started (create_threads f env c ps) ++ l)
          (started-append (join_threads f env c ps) cs
            ∙ rw (started-join_threads ps, none_after) refl)
      ∙ append-nil (started (create_threads f env c ps))

  run_threads-StartsWell :
      (ps : List ℕ)
      → Ascending 0 ps
      → (is_pipelock c.mode && is_among c.primary_pipe ps) ≡ false
      → StartsWell (run_threads f env c ps)
  unfolding StartsWell run_threads started starting
  run_threads-StartsWell ps a h =
      let fits = create_threads-Fits 0 ps a h in
      elim (Bool-cases (is_pipelock c.mode)) [
        | inl m ↦ elim (Bool-cases (ltb_ℤ c.primary_pipe (pos 0) || ltb_ℤ (pos 3) c.primary_pipe)) [
          | inl o ↦ rw (m, o) (unfold Fits in tt)
          | inr o ↦ rw (m, o) (subst (Fits c 0) (sym (only_created ps _ refl)) fits)
        ]
        | inr m ↦ rw m (subst (Fits c 0) (sym (only_created ps _ refl)) fits)
      ]

  after-StartsWell :
      (cs : List Call) (r : Run) → started cs ≡ [] → StartsWell r → StartsWell (after cs r)
  unfolding StartsWell
  after-StartsWell cs r e w =
      subst (Fits c 0)
        (sym (started-append cs r.calls ∙ ap (λ (l : List ThreadCtx). l ++ started r.calls) e)) w

  stop-StartsWell : (n : ℕ) → StartsWell (stop n)
  unfolding StartsWell started Fits
  stop-StartsWell n = tt

  prepare_pipes-StartsWell :
      (ps : List ℕ) (k : Run) → StartsWell k → StartsWell (prepare_pipes f env c ps k)
  unfolding prepare_pipes
  prepare_pipes-StartsWell [] k w = w
  prepare_pipes-StartsWell (p ∷ ps) k w = elim (Bool-cases (env.has_phy_name p)) [
    | inr e ↦ rw e (stop-StartsWell 1)
    | inl e ↦ rw e (
        after-StartsWell _ _ (no_start (is_not_zero f c.frequency))
          (prepare_pipes-StartsWell ps k w))
  ]
    where
      no_start : (b : Bool) → started (reset_stats p ∷ (if b then set_clock p ∷ [] else [])) ≡ []
      no_start b = unfold started starting in ground arith

  run_secondary-StartsWell : (ps : List ℕ) → Ascending 0 ps → StartsWell (run_secondary f env c ps)
  unfolding run_secondary
  run_secondary-StartsWell ps a =
      elim (Bool-cases (is_pipelock c.mode && is_among c.primary_pipe ps)) [
        | inl e ↦ rw e (stop-StartsWell 1)
        | inr e ↦ rw e (prepare_pipes-StartsWell ps _ (run_threads-StartsWell ps a e))
      ]

  run_mode-StartsWell :
      (m : Mode) (ps : List ℕ) → Ascending 0 ps → StartsWell (run_mode f env c m ps)
  unfolding run_mode
  run_mode-StartsWell pri ps a = unfold StartsWell started starting Fits in tt
  run_mode-StartsWell sec ps a = run_secondary-StartsWell ps a
  run_mode-StartsWell pipelock ps a = run_secondary-StartsWell ps a
  run_mode-StartsWell other ps a = stop-StartsWell 1

  if-StartsWell :
      (b : Bool) (r r' : Run) → StartsWell r → StartsWell r' → StartsWell (if b then r else r')
  if-StartsWell true r r' w w' = w
  if-StartsWell false r r' w w' = w'

  init_and_run-StartsWell : (ps : List ℕ) → Ascending 0 ps → StartsWell (init_and_run f env c ps)
  unfolding init_and_run
  init_and_run-StartsWell ps a =
      after-StartsWell (init_lib ∷ []) _ (unfold started starting in refl) (
        if-StartsWell (env.init_result == 0) _ _ (run_mode-StartsWell c.mode ps a)
          (stop-StartsWell 1))

  check_and_run-StartsWell : (ps : List ℕ) → Ascending 0 ps → StartsWell (check_and_run f env c ps)
  unfolding check_and_run
  check_and_run-StartsWell ps a =
      let well = init_and_run-StartsWell ps a in
      if-StartsWell c.hardware_ts _ _ well (
        after-StartsWell (check_vsync (front ps) ∷ []) _ (unfold started starting in refl) (
          if-StartsWell (not (env.vsync_result (front ps) ==ℤ negsuc 0) && env.clock_works) _ _ well
            (stop-StartsWell 1)))

  run_with-StartsWell :
      (o : Option (List ℕ))
      → ((ps : List ℕ) → o ≡ some ps → Ascending 0 ps)
      → StartsWell (elim o [ none ↦ stop 1 | some ps ↦ check_and_run f env c ps ])
  run_with-StartsWell none h = stop-StartsWell 1
  run_with-StartsWell (some ps) h = check_and_run-StartsWell ps (h ps refl)

  -- Whatever the options and the results of the calls: the threads that `main` starts have pipes
  -- from 0 to 3, each one once and in order; in the pipelock mode each gets the primary pipe,
  -- which is not its own, and else none.
  pub run-starts : Fits c 0 (started (run f env c).calls)
  unfolding run StartsWell
  run-starts =
      run_with-StartsWell (parse_pipes_arg c.pipes_arg)
        (λ ps e. (parse_pipes_arg-Ascending c.pipes_arg ps e).0)
