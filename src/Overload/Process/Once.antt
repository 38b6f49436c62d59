-- ===== src/Overload/Process/Once.antt =====
-- The set-up happens once, and then the wrappers work on the controller it made.
use band_width_limiter.Base.{
  ℕ, ◌≡◌, refl, ap, ◌∙◌, Bool, true, false, Option, none, some, List, [], ◌∷◌,
}
use band_width_limiter.Base.Outcome.{Outcome, ok, exited, crashed, out_of_fuel, Returns, ◌>>=◌}
use band_width_limiter.Text.{Bytes, Environment, getenv}
use band_width_limiter.Text.Variables.{var_glibc_path}
use band_width_limiter.Config.{Text}
use band_width_limiter.Controller.{Controller}
use band_width_limiter.Controller.Invariant.{IsController}
use band_width_limiter.Controller.Init.{init_process}
use band_width_limiter.Overload.{Call, step, run}
use band_width_limiter.Overload.Safety.{run-IsController}
use band_width_limiter.Overload.Process.{
  LibcName, libc_names, Process, fresh_process, Wrapper, counted, passed, load_addresses,
  init_overload, init_env_once, books, wrap, wrap_all,
}

-- The calls that keep books.
abbrev pub calls_of : List Wrapper → List Call
calls_of [] = []
calls_of (counted call ∷ ws) = call ∷ calls_of ws
calls_of (passed ∷ ws) = calls_of ws

-- The globals after a set-up, with the controller of the moment.
abbrev pub ready : ℕ → Environment → Controller → Process
ready handle vars c = record {
  init0 = true;
  init1 = true;
  ins_cont_str = some c;
  handle = some handle;
  vars = vars;
}

-- A process that is set up, with a valid controller.
abbrev pub IsRunning : ℕ → Environment → Process → Type 0
IsRunning handle vars q = (c : Controller) × (q ≡ ready handle vars c) × IsController c

bind_swap {ℓ κ μ ν} :
    {A : Type ℓ} {B : Type κ} {C : Type μ} {D : Type ν} (o : Outcome A) (f : A → B)
    (g : B → Outcome D) (h : A → Outcome C) (k : C → Outcome D)
    → ((a : A) → g (f a) ≡ (h a >>= k))
    → ((o >>= λ a. ok (f a)) >>= g) ≡ ((o >>= h) >>= k)
bind_swap (ok a) f g h k e = e a
bind_swap (exited n) f g h k e = refl
bind_swap crashed f g h k e = refl
bind_swap out_of_fuel f g h k e = refl

module _ (fuel : ℕ) (left : Text → Option Bytes) (file : Option Bytes)
    (dlopen : Option Bytes → Option ℕ) (dlsym : ℕ → LibcName → Bool) where
  -- All functions are there.
  loaded :
      (handle : ℕ) (names : List LibcName) (p : Process)
      → ((name : LibcName) → dlsym handle name ≡ true)
      → load_addresses fuel left file dlopen dlsym handle names p ≡ ok p
  unfolding load_addresses
  loaded handle [] p h = refl
  loaded handle (name ∷ names) p h = rw (h name, load_addresses) (loaded handle names p h)

  module _ (p vars : Environment) (c : Controller)
      (init : init_process fuel left file p ≡ ok (some c, vars)) where
    not_opened :
        dlopen (getenv var_glibc_path vars) ≡ none
        → init_env_once fuel left file dlopen dlsym (fresh_process p) ≡ exited 1
    unfolding init_env_once init_overload
    not_opened e = rw (init) rw (e) refl

    pub set_up :
        (handle : ℕ)
        → dlopen (getenv var_glibc_path vars) ≡ some handle
        → ((name : LibcName) → dlsym handle name ≡ true)
        → init_env_once fuel left file dlopen dlsym (fresh_process p) ≡ ok (ready handle vars c)
    unfolding init_env_once init_overload
    set_up handle e h =
        let q : Process = record {
          init0 = true;
          init1 = false;
          ins_cont_str = some c;
          handle = some handle;
          vars = vars;
        } in
        rw (init) rw (e) rw (loaded handle libc_names q h) refl

  -- In a process that is set up, the wrappers are those of the controller.
  wrap_ready :
      (handle : ℕ) (vars : Environment) (c : Controller) (ws : List Wrapper)
      → wrap_all fuel left file dlopen dlsym (ready handle vars c) ws
        ≡ (run c (calls_of ws) >>= λ after. ok (ready handle vars after))
  unfolding wrap_all wrap init_env_once books run
  wrap_ready handle vars c [] = refl
  wrap_ready handle vars c (passed ∷ ws) = wrap_ready handle vars c ws
  wrap_ready handle vars c (counted call ∷ ws) =
      bind_swap (step c call) (λ after. ready handle vars after)
        (λ q. wrap_all fuel left file dlopen dlsym q ws) (λ after. run after (calls_of ws))
        (λ after. ok (ready handle vars after)) (λ after. wrap_ready handle vars after ws)

  -- From a fresh process on, whatever the program calls first.
  wrap_fresh :
      (p vars : Environment) (c : Controller) (handle : ℕ) (w : Wrapper) (ws : List Wrapper)
      → init_env_once fuel left file dlopen dlsym (fresh_process p) ≡ ok (ready handle vars c)
      → wrap_all fuel left file dlopen dlsym (fresh_process p) (w ∷ ws)
        ≡ wrap_all fuel left file dlopen dlsym (ready handle vars c) (w ∷ ws)
  unfolding wrap_all wrap
  wrap_fresh p vars c handle w ws e =
      ap
        (λ o. o >>= books fuel left file dlopen dlsym w >>= λ q.
          wrap_all fuel left file dlopen dlsym q ws)
        e

  -- If `init_env` returns a controller, `dlopen` finds libc at the path that it left and `dlsym`
  -- all functions, a row of calls of the wrappers from a process that has made none does what the
  -- same calls do on that controller: the set-up happens once, in the first call, and `socket`,
  -- `readv`, `writev`, `select` and `poll` change nothing else.
  pub wrap_all-run :
      (p vars : Environment) (c : Controller) (handle : ℕ) (w : Wrapper) (ws : List Wrapper)
      → init_process fuel left file p ≡ ok (some c, vars)
      → dlopen (getenv var_glibc_path vars) ≡ some handle
      → ((name : LibcName) → dlsym handle name ≡ true)
      → wrap_all fuel left file dlopen dlsym (fresh_process p) (w ∷ ws)
        ≡ (run c (calls_of (w ∷ ws)) >>= λ after. ok (ready handle vars after))
  wrap_all-run p vars c handle w ws init e h =
      wrap_fresh p vars c handle w ws (set_up p vars c init handle e h)
      ∙ wrap_ready handle vars c (w ∷ ws)

  -- Without libc, the first wrapper ends the process with status 1.
  wrap_all_unopened :
      (p vars : Environment) (c : Controller) (w : Wrapper) (ws : List Wrapper)
      → init_process fuel left file p ≡ ok (some c, vars)
      → dlopen (getenv var_glibc_path vars) ≡ none
      → wrap_all fuel left file dlopen dlsym (fresh_process p) (w ∷ ws) ≡ exited 1
  unfolding wrap_all wrap
  wrap_all_unopened p vars c w ws init e =
      ap
        (λ o. o >>= books fuel left file dlopen dlsym w >>= λ q.
          wrap_all fuel left file dlopen dlsym q ws)
        (not_opened p vars c init e)

  -- A process that is set up from a valid controller runs to the end of its calls.
  pub Returns-wrap_all :
      (p vars : Environment) (c : Controller) (handle : ℕ) (w : Wrapper) (ws : List Wrapper)
      → init_process fuel left file p ≡ ok (some c, vars)
      → dlopen (getenv var_glibc_path vars) ≡ some handle
      → ((name : LibcName) → dlsym handle name ≡ true)
      → IsController c
      → Returns
          (IsRunning handle vars)
          (wrap_all fuel left file dlopen dlsym (fresh_process p) (w ∷ ws))
  Returns-wrap_all p vars c handle w ws init e h valid =
      let (after, got, v) = run-IsController c (calls_of (w ∷ ws)) valid in
      (
        ready handle vars after,
        wrap_all-run p vars c handle w ws init e h
            ∙ ap (λ o. o >>= λ a. ok (ready handle vars a)) got,
        (after, refl, v),
      )
