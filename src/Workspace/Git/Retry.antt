-- ===== src/Workspace/Git/Retry.antt =====
-- How often a network command is tried, and which attempt counts.
use partha_prime_agent.Prelude.{
  ℕ, suc, zero, ◌≤◌, String, Bool, true, false, List, [], ◌∷◌, ◌++◌, some, sym, append_assoc, ◌≡◌,
  ◌⊎◌, inl, inr, refl, ap, ◌∙◌, arith, Bool-cases,
}
use mathlib.Core.List.{append-nil}
use partha_prime_agent.Prelude.Result.{Result, ok, err, Exception}
use partha_prime_agent.Prelude.Exec.{Exec}
use partha_prime_agent.Json.{pos}
use partha_prime_agent.Paths.{FilePath}
use partha_prime_agent.Platform.{Platform}
use partha_prime_agent.Scanners.Execution.{Env}
use partha_prime_agent.Workspace.State.{Command, World, Machine, Config, sleep}
use partha_prime_agent.Workspace.Git.{
  git_argv, is_transient, transient, retry, run_git_command, run_with_retries,
  run_network_git_command,
}

-- A result that is tried again: a timeout or a failed command.
abbrev pub fails_for_now : Result String → Bool
fails_for_now (ok out) = false
fails_for_now (err x) = is_transient x.kind

module _ {S : Type 0} (P : Platform) (M : Machine S) (C : Config) (m : Exec (World S) String) where
  -- The world before the attempt that follows `k` failed ones and their waits.
  unfoldable pub world_before : ℕ → ℕ → World S → World S
  world_before attempt zero w = w
  world_before attempt (suc k) w = world_before (suc attempt) k (sleep (suc attempt) (m w).1).1

  -- The first `k` attempts fail for now.
  unfoldable pub AllFail : ℕ → ℕ → World S → Type 0
  AllFail attempt zero w = Unit
  AllFail attempt (suc k) w =
      (fails_for_now (m w).0 ≡ true) × AllFail (suc attempt) k (sleep (suc attempt) (m w).1).1

  -- How a loop with `left` retries ended: as the first attempt that does not fail for now, or as
  -- the last one.
  pub record Tried (left attempt : ℕ) (w : World S) (out : Result String × World S) : Type 0 where
    pub failed : ℕ
    pub within : failed ≤ left
    pub all_fail : AllFail attempt failed w
    pub ended : out ≡ m (world_before attempt failed w)
    pub last : (failed ≡ left) ⊎ (fails_for_now out.0 ≡ false)

  transient-calm :
      (r : Result String) (handler : Exception → Exec (World S) String) (w : World S)
      → fails_for_now r ≡ false
      → transient P M C r handler w ≡ (r, w)
  transient-calm (ok out) handler w h = refl
  transient-calm (err x) handler w h = rw h

  transient-again :
      (r : Result String) (rest : Exec (World S) String) (w : World S)
      → fails_for_now r ≡ true
      → transient P M C r (λ x. rest) w ≡ rest w
  transient-again (ok out) rest w h = cc
  transient-again (err x) rest w h = rw h

  transient-last :
      (r : Result String) (w : World S) → transient P M C r (λ x w'. (err x, w')) w ≡ (r, w)
  transient-last (ok out) w = refl
  transient-last (err x) w = elim (Bool-cases (is_transient x.kind)) [ inl e ↦ rw e | inr e ↦ rw e ]

  retry-calm :
      (left attempt : ℕ) (w : World S)
      → fails_for_now (m w).0 ≡ false
      → retry P M C left attempt m w ≡ m w
  unfolding retry
  retry-calm zero attempt w h = transient-calm (m w).0 _ (m w).1 h
  retry-calm (suc left) attempt w h = transient-calm (m w).0 _ (m w).1 h

  retry-last : (attempt : ℕ) (w : World S) → retry P M C zero attempt m w ≡ m w
  unfolding retry
  retry-last attempt w = transient-last (m w).0 (m w).1

  retry-again :
      (left attempt : ℕ) (w : World S)
      → fails_for_now (m w).0 ≡ true
      → retry P M C (suc left) attempt m w
        ≡ retry P M C left (suc attempt) m (sleep (suc attempt) (m w).1).1
  unfolding retry
  retry-again left attempt w h = transient-again (m w).0 _ (m w).1 h

  -- The loop ends with some attempt, all before which failed for now, and which is the last one
  -- that is allowed or did not fail for now.
  pub retry-Tried :
      (left attempt : ℕ) (w : World S) → Tried left attempt w (retry P M C left attempt m w)
  unfolding world_before AllFail
  retry-Tried zero attempt w = record {
    failed = 0;
    within = omega arith;
    all_fail = tt;
    ended = retry-last attempt w;
    last = inl refl;
  }
  retry-Tried (suc left) attempt w = elim (Bool-cases (fails_for_now (m w).0)) [
    | inr calm ↦ record {
      failed = 0;
      within = omega arith;
      all_fail = tt;
      ended = retry-calm (suc left) attempt w calm;
      last = inr (
          ap (λ (o : Result String × World S). fails_for_now o.0)
            (retry-calm (suc left) attempt w calm)
          ∙ calm);
    }
    | inl again ↦
        let rest = retry-Tried left (suc attempt) (sleep (suc attempt) (m w).1).1 in
        rw (retry-again left attempt w again) (record {
          failed = suc rest.failed;
          within = omega (arith, rest.within);
          all_fail = (again, rest.all_fail);
          ended = rest.ended;
          last = elim rest.last [ inl e ↦ inl (ap suc e) | inr e ↦ inr e ];
        })
  ]

  -- An attempt that does not fail for now, after `k` that did, is the outcome if `k` retries are
  -- allowed.
  pub retry_recovers :
      (k left attempt : ℕ) (w : World S)
      → k ≤ left
      → AllFail attempt k w
      → fails_for_now (m (world_before attempt k w)).0 ≡ false
      → retry P M C left attempt m w ≡ m (world_before attempt k w)
  unfolding world_before AllFail
  retry_recovers zero left attempt w h all calm = retry-calm left attempt w calm
  retry_recovers (suc k) zero attempt w h all calm = absurd (omega arith)
  retry_recovers (suc k) (suc left) attempt w h all calm =
      retry-again left attempt w all.0
      ∙ retry_recovers k left (suc attempt) _ (omega arith) all.1 calm

-- The multiples of the backoff that are waited for behind an attempt, `k` of them.
abbrev pub backoffs : ℕ → ℕ → List ℕ
backoffs attempt zero = []
backoffs attempt (suc k) = suc attempt ∷ backoffs (suc attempt) k

module _ {S : Type 0} (P : Platform) (M : Machine S) (C : Config) (command : List String)
    (cwd : FilePath) (timeout : ℕ) (extra_env : Env) where
  abbrev attempt_of : Exec (World S) String
  attempt_of = run_git_command P M C command cwd timeout extra_env

  -- The process that every attempt starts.
  unfoldable pub command_of : Command
  unfolding git_argv
  command_of = record {
    argv = git_argv command;
    cwd = some cwd;
    extra_env = ("GIT_TERMINAL_PROMPT", "0") ∷ extra_env;
    timeout = some timeout;
  }

  abbrev pub starts_of : ℕ → List Command
  starts_of zero = []
  starts_of (suc n) = command_of ∷ starts_of n

  starts_of-snoc : (n : ℕ) → starts_of n ++ (command_of ∷ []) ≡ starts_of (suc n)
  starts_of-snoc zero = refl
  starts_of-snoc (suc n) = ap (λ rest. command_of ∷ rest) (starts_of-snoc n)

  one_command :
      (w : World S)
      → ((attempt_of w).1.commands ≡ w.commands ++ (command_of ∷ []))
        × ((attempt_of w).1.sleeps ≡ w.sleeps)
  unfolding run_git_command command_of
  one_command w = (refl, refl)

  traced :
      (attempt k : ℕ) (w : World S)
      → ((world_before P M C attempt_of attempt k w).commands ≡ w.commands ++ starts_of k)
        × ((world_before P M C attempt_of attempt k w).sleeps ≡ w.sleeps ++ backoffs attempt k)
  unfolding world_before
  traced attempt zero w = (sym (append-nil w.commands), sym (append-nil w.sleeps))
  traced attempt (suc k) w =
      let (commands, sleeps) = one_command w in
      let (commands', sleeps') = traced (suc attempt) k (sleep (suc attempt) (attempt_of w).1).1 in
      (
        commands'
            ∙ ap (λ l. l ++ starts_of k) commands
            ∙ append_assoc w.commands (command_of ∷ []) (starts_of k),
        sleeps'
            ∙ append_assoc (attempt_of w).1.sleeps (suc attempt ∷ []) (backoffs (suc attempt) k)
            ∙ ap (λ l. l ++ (suc attempt ∷ backoffs (suc attempt) k)) sleeps,
      )

  traced_retry :
      (retries : ℕ) (w : World S)
      → (k : ℕ) × (k ≤ retries)
        × ((retry P M C retries 0 attempt_of w).1.sleeps ≡ w.sleeps ++ backoffs 0 k)
        × ((retry P M C retries 0 attempt_of w).1.commands ≡ w.commands ++ starts_of (suc k))
  traced_retry retries w =
      let t = retry-Tried P M C attempt_of retries 0 w in
      let (commands, sleeps) = one_command (world_before P M C attempt_of 0 t.failed w) in
      let (commands', sleeps') = traced 0 t.failed w in
      (
        t.failed,
        t.within,
        ap (λ (o : Result String × World S). o.1.sleeps) t.ended ∙ sleeps ∙ sleeps',
        ap (λ (o : Result String × World S). o.1.commands) t.ended
            ∙ commands
            ∙ ap (λ l. l ++ (command_of ∷ [])) commands'
            ∙ append_assoc w.commands (starts_of t.failed) (command_of ∷ [])
            ∙ ap (λ l. w.commands ++ l) (starts_of-snoc t.failed),
      )

  -- Where `retries` retries are configured, a network command waits at most so many times, for one,
  -- two and more multiples of the backoff in turn, and starts the same git process once more than
  -- it waits, and nothing else.
  pub run_network_git_command_bounds :
      (retries : ℕ) (w : World S)
      → C.max_network_retries ≡ pos retries
      → (k : ℕ) × (k ≤ retries)
        × ((run_network_git_command P M C command cwd timeout extra_env w).1.sleeps
            ≡ w.sleeps ++ backoffs 0 k)
        × ((run_network_git_command P M C command cwd timeout extra_env w).1.commands
            ≡ w.commands ++ starts_of (suc k))
  unfolding run_network_git_command run_with_retries
  run_network_git_command_bounds retries w e =
      let same : run_network_git_command P M C command cwd timeout extra_env w
          ≡ retry P M C retries 0 attempt_of w =
        ap (λ z. run_with_retries P M C z attempt_of w) e in
      rw same (traced_retry retries w)
