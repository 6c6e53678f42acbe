-- ===== src/Servarr/Following.antt =====
-- The number of POSTs and the end of the polling in `Run` and `follow`
-- (internal/servarr/import_execution.go).
use nix.Base.{
  ℕ, zero, suc, ◌≡◌, refl, ◌+◌, ◌≤◌, ◌<◌, Bool, true, false, Option, none, some, Result, ok, err,
  arith, if◌then◌else◌, ◌==◌, leb, ◌∙◌, ap, Bool-cases, inl, inr,
}
use nix.Servarr.Command.{Command, classify, is_terminal, Disposition}
use nix.Servarr.Import.{
  Dependencies, Flow, ImportState, run, advance, follow, follow_requested, request_at, after_submit,
  submit, resume_prepared, poll, turn, count_check, fail, Turn, returned, again,
  terminal_confirmation_checks, prepared, FlowError, Answer, returning, unless_cancelled,
  after_read, after_wait, after_confirm, follow_command,
}

-- Whether `Run` may submit: only the process that stored the prepared state, in that state.
abbrev pub may_submit : Bool → ImportState → Bool
may_submit true prepared = true
may_submit _ _ = false

abbrev pub allowed_posts : {E : Type 0} → Bool → Result E ImportState → ℕ
allowed_posts newly_prepared (ok state) = if may_submit newly_prepared state then 1 else 0
allowed_posts newly_prepared (err e) = 0

module _ (d : Dependencies) where
  follow_requested-posts :
      (fuel : ℕ) (r : d.Execution × Option d.Failure) (w : Flow d)
      → (follow_requested d fuel r w).1.posts ≡ w.posts
  unfolding follow_requested follow
  follow_requested-posts fuel (x, none) w = refl
  follow_requested-posts fuel (x, some e) w = refl

  request_at-posts :
      (fuel : ℕ) (x : d.Execution) (id : ℕ) (r : Result (FlowError d.Failure) ℕ) (w : Flow d)
      → (request_at d fuel x id r w).1.posts ≡ w.posts
  unfolding request_at
  request_at-posts fuel x id (err e) w = refl
  request_at-posts fuel x id (ok at) w = follow_requested-posts fuel _ _

  after_submit-posts :
      (fuel : ℕ) (x : d.Execution) (r : Result d.Failure ℕ) (w : Flow d)
      → (after_submit d fuel x r w).1.posts ≡ w.posts
  unfolding after_submit
  after_submit-posts fuel x (err e) w = refl
  after_submit-posts fuel x (ok id) w = request_at-posts fuel x id _ _

  advance-posts :
      (fuel : ℕ) (x : d.Execution) (new : Bool) (r : Result d.Failure ImportState) (w : Flow d)
      → (advance d fuel x new r w).1.posts ≤ w.posts + allowed_posts new r
  unfolding advance submit resume_prepared follow
  advance-posts fuel x new (err e) w = omega arith
  advance-posts fuel x new (ok ImportState.confirmed) w = ground arith
  advance-posts fuel x new (ok ImportState.failed) w = ground arith
  advance-posts fuel x new (ok ImportState.requested) w = ground arith
  advance-posts fuel x new (ok ImportState.other_state) w = ground arith
  advance-posts fuel x true (ok prepared) w = omega (
    arith,
    after_submit-posts fuel x (d.submit w.env).0
        (record w { env = (d.submit w.env).1; posts = suc w.posts }),
  )
  advance-posts fuel x false (ok prepared) w = omega arith

  -- `Run` submits the import at most once, and never after a restart: the number of POSTs grows by at
  -- most one, and stays as it was unless the execution is newly prepared and in the prepared state,
  -- whatever the callbacks answer and however long the polling goes on.
  pub run-posts :
      (fuel : ℕ) (execution : d.Execution) (newly_prepared : Bool) (w : Flow d)
      → (run d fuel execution newly_prepared w).1.posts
        ≤ w.posts + allowed_posts newly_prepared (d.state execution)
  unfolding run
  run-posts fuel execution newly_prepared w =
      go (d.cancelled w.env) _ _ _
        (advance-posts fuel execution newly_prepared (d.state execution) w)
    where
      go :
          (c : Option d.Failure) (a b : Option (Answer d) × Flow d) (n : ℕ)
          → b.1.posts ≤ a.1.posts + n
          → (unless_cancelled d c a b).1.posts ≤ a.1.posts + n
      go (some e) a b n h = omega arith
      go none a b n h = h

  -- An environment in which nothing is confirmed, the command has ended, and waiting succeeds, for as
  -- long as it is only asked.
  pub record Ended (id : ℕ) (execution : d.Execution) (P : d.Env → Type 0) : Type 0 where
    pub unconfirmed : (env : d.Env) → P env → (d.confirm env execution).0 ≡ (execution, false, none)
    pub asked : (env : d.Env) → P env → P (d.confirm env execution).1
    pub answered :
        (env : d.Env)
        → P env
        → (command : Command) × (result : Disposition) × ((d.read_command env id).0 ≡ ok command)
          × (classify command d.require_completion_result ≡ ok result)
          × (is_terminal result ≡ true)
    pub read : (env : d.Env) → P env → P (d.read_command env id).1
    pub waited : (env : d.Env) → P env → ((d.wait env).0 ≡ none) × P (d.wait env).1

  module _ (id : ℕ) (execution : d.Execution) where
    after_wait-none :
        (checks : ℕ) (r : Option d.Failure × d.Env)
        → r.0 ≡ none
        → after_wait d execution checks r ≡ (again checks, r.1)
    after_wait-none checks (none, env) h = refl
    after_wait-none checks (some e, env) h = cc

    counted-terminal :
        (checks : ℕ) (result : Disposition) (env : d.Env)
        → is_terminal result ≡ true
        → (d.wait env).0 ≡ none
        → count_check d execution checks (ok result) env ≡ (
            if leb terminal_confirmation_checks (suc checks)
            then returning d (fail d execution env)
            else (again (suc checks), (d.wait env).1))
    unfolding count_check
    counted-terminal checks Disposition.pending env h waits = cc
    counted-terminal checks Disposition.done env h waits =
        ap
          (λ r.
            if leb terminal_confirmation_checks (suc checks)
            then returning d (fail d execution env)
            else r)
          (after_wait-none (suc checks) (d.wait env) waits)
    counted-terminal checks Disposition.broken env h waits =
        ap
          (λ r.
            if leb terminal_confirmation_checks (suc checks)
            then returning d (fail d execution env)
            else r)
          (after_wait-none (suc checks) (d.wait env) waits)

    after_read-ok :
        (checks : ℕ) (command : Command) (r : Result d.Failure Command × d.Env)
        → r.0 ≡ ok command
        → after_read d execution checks r
          ≡ count_check d execution checks (classify command d.require_completion_result) r.1
    after_read-ok checks command (err e, env) h = cc
    after_read-ok checks command (ok c, env) h = cc

    after_confirm-none :
        (checks : ℕ) (r : (d.Execution × Bool × Option d.Failure) × d.Env)
        → r.0 ≡ (execution, false, none)
        → after_confirm d execution id checks r
          ≡ after_read d execution checks (d.read_command r.1 id)
    after_confirm-none checks ((x, b, some e), env) h = cc
    after_confirm-none checks ((x, true, none), env) h = cc
    after_confirm-none checks ((x, false, none), env) h = refl

    -- What one turn does where the command has ended.
    turn-ended :
        (P : d.Env → Type 0) (checks : ℕ) (env : d.Env)
        → Ended id execution P
        → P env
        → (next : d.Env) × P next
          × (turn d execution id checks env ≡ (
              if leb terminal_confirmation_checks (suc checks)
              then returning d (fail d execution next)
              else (again (suc checks), (d.wait next).1)))
          × P (d.wait next).1
    unfolding turn
    turn-ended P checks env ended p =
        let asked = ended.asked env p in
        let (command, result, said, classified, terminal) =
          ended.answered (d.confirm env execution).1 asked in
        let p2 = ended.read (d.confirm env execution).1 asked in
        let (waits, p3) = ended.waited _ p2 in
        (
          (d.read_command (d.confirm env execution).1 id).1,
          p2,
          after_confirm-none checks (d.confirm env execution) (ended.unconfirmed env p)
              ∙ after_read-ok checks command (d.read_command (d.confirm env execution).1 id) said
              ∙ ap
                  (λ c.
                    count_check d execution checks c
                      (d.read_command (d.confirm env execution).1 id).1)
                  classified
              ∙ counted-terminal checks result _ terminal waits,
          p3,
        )

    abbrev after_turn : ℕ → Turn d × d.Env → Option (Answer d) × d.Env
    after_turn fuel r = elim r.0 [
      | returned answer ↦ (some answer, r.1)
      | again checks ↦ poll d fuel execution id checks r.1
    ]

    poll-turn :
        (fuel checks : ℕ) (env : d.Env) (r : Turn d × d.Env)
        → turn d execution id checks env ≡ r
        → poll d (suc fuel) execution id checks env ≡ after_turn fuel r
    unfolding poll
    poll-turn fuel checks env r h = ap (after_turn fuel) h

    -- Enough polling ends a command that has ended: with twelve turns left, less the terminal checks
    -- already counted, the loop returns, and what it returns is the failure recorded.
    poll-ends :
        (P : d.Env → Type 0) (fuel checks : ℕ) (env : d.Env)
        → Ended id execution P
        → P env
        → terminal_confirmation_checks ≤ fuel + checks
        → 0 < fuel
        → (last : d.Env) × P last
          × (poll d fuel execution id checks env
              ≡ (some (fail d execution last).0, (fail d execution last).1))
    unfolding poll
    poll-ends P zero checks env ended p enough positive = absurd (omega arith)
    poll-ends P (suc fuel) checks env ended p enough positive =
        let (next, q, turned, r) = turn-ended P checks env ended p in
        elim (Bool-cases (leb terminal_confirmation_checks (suc checks))) [
          | inl e ↦ (
            next,
            q,
            poll-turn fuel checks env (returning d (fail d execution next)) (
                turned
                ∙ ap
                    (λ b.
                      if b
                      then returning d (fail d execution next)
                      else (again (suc checks), (d.wait next).1))
                    e),
          )
          | inr e ↦
              let (last, s, ends) =
                poll-ends P fuel (suc checks) (d.wait next).1 ended r (omega arith)
                  (ground arith) in
              (
                last,
                s,
                poll-turn fuel checks env (again (suc checks), (d.wait next).1)
                      (turned
                        ∙ ap
                            (λ b.
                              if b
                              then returning d (fail d execution next)
                              else (again (suc checks), (d.wait next).1))
                            e)
                    ∙ ends,
              )
        ]

  positive_command : {A : Type 0} (id : ℕ) (a b : A) → 0 < id → (if id == 0 then a else b) ≡ b
  positive_command id a b h = ground arith

  -- Polling ends once the command has ended: where nothing is confirmed, the command read is classified
  -- as completed or failed, and waiting succeeds, `follow` with fuel for the twelve checks of a command
  -- that has an identifier returns what recording the failure returns, in an environment that the
  -- callbacks reached.
  pub follow-ends :
      (id : ℕ) (execution : d.Execution) (P : d.Env → Type 0) (fuel : ℕ) (w : Flow d)
      → Ended id execution P
      → P w.env
      → 0 < id
      → d.command_id execution ≡ some id
      → terminal_confirmation_checks ≤ fuel
      → (last : d.Env) × P last
        × (follow d fuel execution w
            ≡ (some (fail d execution last).0, record w { env = (fail d execution last).1 }))
  unfolding follow
  follow-ends id execution P fuel w ended p positive known enough =
      let (last, q, ends) =
        poll-ends id execution P fuel 0 w.env ended p (omega arith) (omega arith) in
      let named : follow_command d fuel execution (d.command_id execution) w.env
          ≡ poll d fuel execution id 0 w.env =
        ap (λ c. follow_command d fuel execution c w.env) known
        ∙ positive_command id _ (poll d fuel execution id 0 w.env) positive in
      (
        last,
        q,
        ap (λ (r : Option (Answer d) × d.Env). (r.0, record w { env = r.1 })) (named ∙ ends),
      )
