-- ===== src/Commands/Queue/Order.antt =====
-- Commands run in the order in which they came, each once, and none is left behind.
use musi_tui.Base.{
  ℕ, zero, suc, ◌*◌, ◌≡◌, refl, ◌∙◌, sym, ap, subst, Bool, true, false, List, [], ◌∷◌, ◌++◌,
  append_assoc, append-nil, arith, length,
}
use musi_tui.Commands.Queue.{
  Worker, checking, waiting, running, finished, CommandQueue, init, enqueue, request_stop, step_at,
  worker_step,
}

-- What happens next: another thread hands in a command or asks for a stop, or the worker moves.
pub data Event (C : Type 0) : Type 0 where
  came : C → Event C
  stop_asked : Event C
  worker_moved : Event C

abbrev in_hand : {C : Type 0} → Worker C → List C
in_hand checking = []
in_hand waiting = []
in_hand (running cmd) = cmd ∷ []
in_hand finished = []

-- The commands that came, in their order.
unfoldable pub commands : {C : Type 0} → List (Event C) → List C
commands [] = []
commands (came cmd ∷ events) = cmd ∷ commands events
commands (stop_asked ∷ events) = commands events
commands (worker_moved ∷ events) = commands events

unfoldable pub moves : {C : Type 0} → ℕ → List (Event C)
moves zero = []
moves (suc n) = worker_moved ∷ moves n

module _ {C W : Type 0} (run : C → W → W) where
  unfoldable pub run_all : List C → W → W
  run_all [] w = w
  run_all (cmd ∷ cmds) w = run_all cmds (run cmd w)

  run_all-append :
      (cmds : List C) (cmd : C) (w : W) → run_all (cmds ++ cmd ∷ []) w ≡ run cmd (run_all cmds w)
  unfolding run_all
  run_all-append [] cmd w = refl
  run_all-append (c ∷ cmds) cmd w = run_all-append cmds cmd (run c w)

  abbrev perform : Event C → CommandQueue C W → CommandQueue C W
  perform (came cmd) q = enqueue cmd q
  perform stop_asked q = request_stop q
  perform worker_moved q = worker_step run q

  unfoldable pub perform_all : List (Event C) → CommandQueue C W → CommandQueue C W
  perform_all [] q = q
  perform_all (e ∷ events) q = perform_all events (perform e q)

  -- The commands that came are those that ran, the one in hand and those that wait, in this order;
  -- and what the commands work on is what running the first of these leaves.
  pub IsAccounted : W → List C → CommandQueue C W → Type 0
  IsAccounted w cmds q =
      (ran : List C) × (q.world ≡ run_all ran w) × (ran ++ (in_hand q.worker ++ q.queue) ≡ cmds)

  step_at-IsAccounted :
      (w : W) (cmds : List C) (k : Worker C) (b : Bool) (queue : List C) (v : W) (ran : List C)
      → v ≡ run_all ran w
      → ran ++ (in_hand k ++ queue) ≡ cmds
      → IsAccounted w cmds
          (step_at run k (record { queue = queue; worker = k; stop_requested = b; world = v }))
  unfolding step_at IsAccounted
  step_at-IsAccounted w cmds checking true queue v ran h e = (ran, h, e)
  step_at-IsAccounted w cmds checking false queue v ran h e = (ran, h, e)
  step_at-IsAccounted w cmds waiting true [] v ran h e = (ran, h, e)
  step_at-IsAccounted w cmds waiting false [] v ran h e = (ran, h, e)
  step_at-IsAccounted w cmds waiting b (c ∷ queue) v ran h e = (ran, h, e)
  step_at-IsAccounted w cmds (running c) b queue v ran h e = (
    ran ++ c ∷ [],
    ap (run c) h ∙ sym (run_all-append ran c w),
    append_assoc ran (c ∷ []) queue ∙ e,
  )
  step_at-IsAccounted w cmds finished b queue v ran h e = (ran, h, e)

  perform_all-IsAccounted :
      (w : W) (events : List (Event C)) (cmds : List C) (q : CommandQueue C W)
      → IsAccounted w cmds q
      → IsAccounted w (cmds ++ commands events) (perform_all events q)
  unfolding perform_all commands IsAccounted worker_step
  perform_all-IsAccounted w [] cmds q (ran, h, e) = (ran, h, e ∙ sym (append-nil cmds))
  perform_all-IsAccounted w (came c ∷ events) cmds q (ran, h, e) =
      subst (λ l. IsAccounted w l (perform_all events (enqueue c q)))
        (append_assoc cmds (c ∷ []) (commands events))
        (perform_all-IsAccounted w events (cmds ++ c ∷ []) (enqueue c q) (ran, h, came_last e))
    where
      came_last :
          ran ++ (in_hand q.worker ++ q.queue) ≡ cmds
          → ran ++ (in_hand q.worker ++ (q.queue ++ c ∷ [])) ≡ cmds ++ c ∷ []
      came_last same =
          ap (λ t. ran ++ t) (sym (append_assoc (in_hand q.worker) q.queue (c ∷ [])))
          ∙ sym (append_assoc ran (in_hand q.worker ++ q.queue) (c ∷ []))
          ∙ ap (λ t. t ++ c ∷ []) same
  perform_all-IsAccounted w (stop_asked ∷ events) cmds q (ran, h, e) =
      perform_all-IsAccounted w events cmds (request_stop q) (ran, h, e)
  perform_all-IsAccounted w (worker_moved ∷ events) cmds q (ran, h, e) =
      perform_all-IsAccounted w events cmds (worker_step run q)
        (step_at-IsAccounted w cmds q.worker q.stop_requested q.queue q.world ran h e)

  -- However the threads interleave: at any time, the commands handed in are those that have run, the
  -- one that runs and those that wait, in this order, and what they work on is the outcome of
  -- running the first of them one after the other.
  pub worker_order :
      (w : W) (events : List (Event C))
      → IsAccounted w (commands events) (perform_all events (init w))
  unfolding IsAccounted run_all
  worker_order w events = perform_all-IsAccounted w events [] (init w) ([], refl, refl)

  -- With no stop asked for, three moves of the worker for each waiting command run them all.
  pub worker_drains :
      (w : W) (cmds : List C)
      → perform_all
          (moves (3 * length cmds))
          (record { queue = cmds; worker = checking; stop_requested = false; world = w })
        ≡ record { queue = []; worker = checking; stop_requested = false; world = run_all cmds w }
  unfolding perform_all moves run_all worker_step step_at
  worker_drains w [] = refl
  worker_drains w (c ∷ cmds) =
      subst
        (λ n.
          perform_all (moves n)
            (record { queue = c ∷ cmds; worker = checking; stop_requested = false; world = w })
          ≡ record {
            queue = [];
            worker = checking;
            stop_requested = false;
            world = run_all (c ∷ cmds) w;
          })
        three_more (worker_drains (run c w) cmds)
    where
      three_more : suc (suc (suc (3 * length cmds))) ≡ 3 * length (c ∷ cmds)
      three_more = omega arith
