-- ===== src/Service/Async/Equivalence.antt =====
-- Calls through the queue have the effect of the calls themselves.
use musi_tui.Base.{
  ◌*◌, ◌≡◌, refl, ◌∙◌, sym, ap, false, List, [], ◌∷◌, ◌++◌, append_assoc, append-nil, length, map,
}
use musi_tui.Base.Text.{Text}
use musi_tui.Commands.Dispatcher.{Service}
use musi_tui.Commands.Queue.{CommandQueue, checking, init, enqueue}
use musi_tui.Commands.Queue.Order.{moves, perform_all, run_all, worker_drains}
use musi_tui.Service.Async.{
  ServiceCommand, play_song, prev_song, next_song, resume_playback, stop_playback, set_volume,
  set_output_device, run_command, async_service,
}

-- The calls that change something: those that are handed in as commands, and `setRootPath`.
pub data ServiceCall : Type 0 where
  playback : ServiceCommand → ServiceCall
  set_root_path : Text → ServiceCall

abbrev pub call : {S : Type 0} → Service S → ServiceCall → S → S
call service (playback c) s = run_command service c s
call service (set_root_path path) s = (service.set_root_path path s).0

-- The calls, one after the other, on any service.
unfoldable pub call_all : {S : Type 0} → Service S → List ServiceCall → S → S
call_all service [] s = s
call_all service (c ∷ calls) s = call_all service calls (call service c s)

abbrev pub roots : List ServiceCall → List ServiceCall
roots [] = []
roots (playback c ∷ calls) = roots calls
roots (set_root_path path ∷ calls) = set_root_path path ∷ roots calls

abbrev pub commands : List ServiceCall → List ServiceCommand
commands [] = []
commands (playback c ∷ calls) = c ∷ commands calls
commands (set_root_path path ∷ calls) = commands calls

module _ {S : Type 0} (real : Service S) where
  run_command-enqueue :
      (c : ServiceCommand) (q : CommandQueue ServiceCommand S)
      → run_command (async_service real) c q ≡ enqueue c q
  unfolding run_command async_service
  run_command-enqueue (play_song album index) q = refl
  run_command-enqueue prev_song q = refl
  run_command-enqueue next_song q = refl
  run_command-enqueue resume_playback q = refl
  run_command-enqueue stop_playback q = refl
  run_command-enqueue (set_volume percent) q = refl
  run_command-enqueue (set_output_device index) q = refl

  -- The worker is about to look, with these commands waiting.
  abbrev holding : List ServiceCommand → S → CommandQueue ServiceCommand S
  holding cmds s = record { queue = cmds; worker = checking; stop_requested = false; world = s }

  set_root_path-holding :
      (path : Text) (before : List ServiceCommand) (s : S)
      → call (async_service real) (set_root_path path) (holding before s)
        ≡ holding before (call real (set_root_path path) s)
  unfolding async_service
  set_root_path-holding path before s = refl

  call_all-queue :
      (calls : List ServiceCall) (before : List ServiceCommand) (s : S)
      → call_all (async_service real) calls (holding before s)
        ≡ holding (before ++ commands calls) (call_all real (roots calls) s)
  unfolding call_all
  call_all-queue [] before s = ap (λ l. holding l s) (sym (append-nil before))
  call_all-queue (playback c ∷ calls) before s =
      ap (call_all (async_service real) calls) (run_command-enqueue c (holding before s))
      ∙ call_all-queue calls (before ++ c ∷ []) s
      ∙ ap (λ l. holding l (call_all real (roots calls) s))
          (append_assoc before (c ∷ []) (commands calls))
  call_all-queue (set_root_path path ∷ calls) before s =
      ap (call_all (async_service real) calls) (set_root_path-holding path before s)
      ∙ call_all-queue calls before (call real (set_root_path path) s)

  call_all-run_all :
      (cmds : List ServiceCommand) (s : S)
      → run_all (run_command real) cmds s ≡ call_all real (map playback cmds) s
  unfolding call_all run_all
  call_all-run_all [] s = refl
  call_all-run_all (c ∷ cmds) s = call_all-run_all cmds (run_command real c s)

  call_all-append :
      (calls others : List ServiceCall) (s : S)
      → call_all real (calls ++ others) s ≡ call_all real others (call_all real calls s)
  unfolding call_all
  call_all-append [] others s = refl
  call_all-append (c ∷ calls) others s = call_all-append calls others (call real c s)

  -- Calls through the asynchronous service before its worker moves, and then three moves of the worker
  -- for each command, leave the service behind it in the state that the same calls leave which are
  -- made on it directly, but with those of `setRootPath`, which does not wait, before all others; and
  -- nothing is waiting.
  pub call_all-async :
      (calls : List ServiceCall) (s : S)
      → perform_all
          (run_command real)
          (moves (3 * length (commands calls)))
          (call_all (async_service real) calls (init s))
        ≡ init (call_all real (roots calls ++ map playback (commands calls)) s)
  call_all-async calls s =
      let after = call_all real (roots calls) s in
      ap (perform_all (run_command real) (moves (3 * length (commands calls))))
        (call_all-queue calls [] s)
      ∙ worker_drains (run_command real) after (commands calls)
      ∙ ap init (
          call_all-run_all (commands calls) after
          ∙ sym (call_all-append (roots calls) (map playback (commands calls)) s))
