-- ===== src/Tests/Tasks.antt =====
-- Runs of the actor's request loop, of the merge, of the engine's tasks, and of the endpoint.
use mathlib.Core.List.{append-nil}
use sv2_p2pool.Prelude.{
  Bool, sym, subst, not, ◌&&◌, append_assoc, ℕ, ◌+◌, ◌≡◌, refl, ◌↔◌, ◌⊎◌, inr, ◌≢◌, ◌++◌, false,
  arith, true, false, List, [], ◌∷◌, some, none, length, map, starts_with,
}
use mathlib.Core.List.{Perm}
use sv2_p2pool.Prelude.Flow.{next, exit}
use sv2_p2pool.ShareChain.Actor.{get_chain_tip, get_share_header}
use sv2_p2pool.Ipc.Wire.{ShareChain}
use sv2_p2pool.ShareChain.Actor.Requests.{
  Asked, Mailbox, reply_to, Reach, here, sends, works, spawn, reply, Works, Step, turns, due,
  Answers, IsSound, Reach-IsSound, Reach-answered,
}
use sv2_p2pool.Demux.Merge
use sv2_p2pool.Demux.Merge.{Merge, cm, engine}
use sv2_p2pool.Demux.Merge.Loses.{Reach-exits}
use sv2_p2pool.Demux.Merge.Conserves.{Conserved, Reach-Conserved}
use sv2_p2pool.Watchers.{no_tasks, starts_watcher, stops_watcher, starts_sweeper, drops, Call, run}
use sv2_p2pool.Watchers.Owned.{IsOwned, run-IsOwned, run-starts}
use sv2_p2pool.Pool.Shutdown.{in_process, started, shutdown_returns, shutdown_returns_iff}
use sv2_p2pool.MetricsEndpoint.{page, handle_one, has_blank_line, metrics_path}
use sv2_p2pool.MetricsEndpoint.Requests.{request}
use sv2_p2pool.MetricsEndpoint.Segments.{Stops, handle_one-page}
use sv2_p2pool.Prelude.Assoc
use sv2_p2pool.Tdp.{success, timeout}
use sv2_p2pool.Tdp.Calls
use sv2_p2pool.Tdp.Calls.{
  Calls, at, fresh, sends as sends_request, waits, cleans, finished, empty, full, closed, idle,
}
use sv2_p2pool.Tests.{hash_of, toy}
use sv2_p2pool.Tests.Chain.{lists, client}

-- Two requests, of which the second is answered while the first is in flight.
abbrev first : Asked
first = (0, get_share_header (hash_of 9))

abbrev second : Asked
second = (1, get_chain_tip)

abbrev overtaken : Mailbox
overtaken = record { queue = []; in_flight = first ∷ []; replies = reply_to client second ∷ [] }

abbrev daemon : ℕ → ShareChain lists
daemon n = client

overtaken-reached : Reach lists daemon (second ∷ first ∷ []) overtaken
overtaken-reached =
    works
      (works
        (works (sends second (sends first here (omega arith)) (omega arith))
          (spawn first (second ∷ []) refl))
        (spawn second [] refl))
      (reply second [] (first ∷ []) refl)

Reach-IsSound_example : IsSound lists daemon (second ∷ first ∷ []) overtaken
Reach-IsSound_example = Reach-IsSound lists daemon overtaken-reached

-- And the reply to the first.
abbrev answered : Mailbox
answered = record {
  queue = [];
  in_flight = [];
  replies = reply_to client first ∷ reply_to client second ∷ [];
}

last_reply : Works lists daemon overtaken answered
last_reply = Works.after Works.idle (reply first [] [] refl)

Reach-answered_example :
    (turns lists daemon last_reply + due lists daemon answered ≡ due lists daemon overtaken)
    × (((u : Mailbox) → ¬ Step lists daemon answered u)
        → Perm (second ∷ first ∷ []) (map (λ r. r.asked) answered.replies)
          × Answers lists daemon answered.replies)
Reach-answered_example =
    Reach-answered lists daemon (second ∷ first ∷ []) overtaken answered overtaken-reached
      last_reply

-- A request of the engine and a message of the channel manager, merged.
abbrev merged : Merge ℕ
merged = record {
  cm_input = record { waiting = []; is_closed = false };
  engine_input = record { waiting = 8 ∷ []; is_closed = false };
  output_is_closed = false;
  task = Merge.selects;
  given = (engine, 8) ∷ (cm, 4) ∷ [];
  sent = (cm, 4) ∷ [];
  dropped = [];
}

merged-reached : Merge.Reach Merge.spawned merged
merged-reached =
    Merge.then_step
      (Merge.then_step (Merge.then_step Merge.here (Merge.gives engine 8 refl))
        (Merge.gives cm 4 refl))
      (Merge.forwards cm 4 [] tt refl)

Reach-Conserved_example : Conserved merged
Reach-Conserved_example = Reach-Conserved merged-reached

Reach-exits_example :
    (s : Merge ℕ) × Merge.Reach Merge.spawned s
    × (s.task ≡ Merge.exits)
    × (s.output_is_closed ≡ false)
    × (s.sent ≡ [])
    × (s.engine_input.waiting ≡ 8 ∷ 9 ∷ [])
Reach-exits_example = Reach-exits (8 ∷ 9 ∷ [])

abbrev calls : List Call
calls = starts_watcher ∷ starts_sweeper ∷ starts_watcher ∷ stops_watcher ∷ drops ∷ []

run-IsOwned_example : IsOwned (run calls no_tasks)
run-IsOwned_example = run-IsOwned calls

run-starts_example : length (run calls no_tasks).runtime.detectors ≡ 2 + 0
run-starts_example = run-starts calls no_tasks

shutdown_returns_iff_example :
    (shutdown_returns true true (started in_process true) ≡ true)
    ↔ ((true ≡ false) ⊎ (in_process ≢ in_process))
shutdown_returns_iff_example = shutdown_returns_iff true in_process true true

-- `GET /metrics HTTP/1.1` and a blank line.
abbrev get_method : List ℕ
get_method = 71 ∷ 69 ∷ 84 ∷ []

abbrev http : List ℕ
http = 72 ∷ 84 ∷ 84 ∷ 80 ∷ 47 ∷ 49 ∷ 46 ∷ 49 ∷ 13 ∷ 10 ∷ 13 ∷ 10 ∷ []

abbrev scrape : List ℕ
scrape = request get_method metrics_path http

-- No blank line in `before`, nor in it with the next bytes before the last.
abbrev clean : List ℕ → List ℕ → Bool
clean before [] = true
clean before (x ∷ rest) = not (has_blank_line before) && clean (before ++ (x ∷ [])) rest

clean_first :
    (before p q : List ℕ)
    → clean before (p ++ q) ≡ true
    → q ≢ []
    → has_blank_line (before ++ p) ≡ false
clean_first before [] [] c h = absurd (h refl)
clean_first before [] (x ∷ q) c h =
    subst (λ xs. has_blank_line xs ≡ false) (sym (append-nil before)) (ground (arith, c))
clean_first before (y ∷ p) q c h =
    subst (λ xs. has_blank_line xs ≡ false) (append_assoc before (y ∷ []) p)
      (clean_first (before ++ (y ∷ [])) p q (ground (arith, c)) h)

scrape_clean : clean [] scrape ≡ true
unfolding has_blank_line starts_with
scrape_clean = refl

scrape_ends : has_blank_line scrape ≡ true
unfolding has_blank_line starts_with
scrape_ends = refl

scrape-Stops : Stops scrape
scrape-Stops = record {
  ends = inr scrape_ends;
  first = λ p q e h. clean_first [] p q (subst (λ xs. clean [] xs ≡ true) e scrape_clean) h;
}

-- The request in two pieces, after which the connection fails.
abbrev pieces : List (List ℕ)
pieces = (71 ∷ 69 ∷ 84 ∷ 32 ∷ 47 ∷ []) ∷ (109 ∷ 101 ∷ 116 ∷ 114 ∷ 105 ∷ 99 ∷ 115 ∷ 32 ∷ http) ∷ []

handle_one-page_example :
    handle_one (some (1 ∷ 2 ∷ [])) "text" (map next pieces ++ (exit "reset" ∷ []))
    ≡ next (page (some (1 ∷ 2 ∷ [])) "text" metrics_path)
handle_one-page_example =
    handle_one-page (some (1 ∷ 2 ∷ [])) "text" 71 (69 ∷ 84 ∷ []) 47
      (109 ∷ 101 ∷ 116 ∷ 114 ∷ 105 ∷ 99 ∷ 115 ∷ []) http pieces (exit "reset" ∷ []) (omega arith)
      (omega arith) (omega arith) ((λ e. cc), ((λ e. cc), tt)) refl (omega arith) scrape-Stops

-- Call 0 times out while its response is delivered, call 1 registers for the same template before call
-- 0 cleans up, and the clean-up drops the sender of call 1.
abbrev raced : Calls toy
raced = record {
  tdp = record { pending_requests = []; last_prev_hash = none; last_template = none };
  phase = at 0 (finished (exit (timeout 7))) (
      at 1 (waits 7) (
        at 1 (sends_request 7)
          (at 0 (cleans 7 (timeout 7)) (at 0 (waits 7) (at 0 (sends_request 7) (λ c. fresh))))));
  one_shot = at 1 closed (at 1 empty (at 0 (full (success [])) (at 0 empty (λ c. empty))));
}

sender_dropped : (raced.phase 1 ≡ waits 7) × (raced.one_shot 1 ≡ closed)
sender_dropped = (refl, refl)
