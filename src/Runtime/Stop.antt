-- ===== src/Runtime/Stop.antt =====
-- `stop_runtime` of simulator_app/runtime.py and the lifespan handler of sim_project/asgi.py,
-- which calls it. What closing a client comes to is an argument, and so
-- is which tasks are done.
use databus_sim.Prelude.{
  ◌≡◌, refl, ap, Bool, true, false, none, some, List, [], ◌∷◌, ◌++◌, ◌∙◌, map, not, arith,
  if◌then◌else◌,
}
use databus_sim.Effect.{Result, ok, Exec, pure, lift, try_except, ◌>>◌}
use databus_sim.Runtime.Start.{Runtime, Task}

-- What closing the clients comes to.
pub record Closings : Type 0 where
  pub mqtt : Result (Unit {0})
  pub databus : Result (Unit {0})
  pub navsat : Result (Unit {0})

-- The loop that cancels.
unfoldable pub cancel_all : (done : Task → Bool) → List Task → List (Task × Bool)
cancel_all done [] = []
cancel_all done (t ∷ ts) = (t, not (done t)) ∷ cancel_all done ts

cancel_all-map :
    (done : Task → Bool) (ts : List Task) → cancel_all done ts ≡ map (λ t. (t, not (done t))) ts
unfolding cancel_all
cancel_all-map done [] = refl
cancel_all-map done (t ∷ ts) = ap (λ l. (t, not (done t)) ∷ l) (cancel_all-map done ts)

module _ {F : Type 0} where
  -- `try: close() except Exception: log`
  unfoldable pub close : Result (Unit {0}) → Exec (Runtime F) (Unit {0})
  close r = try_except (lift r) (pure tt)

  -- Each task that is not done is cancelled, and `gather` waits for all; what they raise is
  -- logged.
  unfoldable pub clear_tasks : (done : Task → Bool) → Exec (Runtime F) (Unit {0})
  unfolding cancel_all
  clear_tasks done rt =
      (ok tt, record rt { awaited = rt.awaited ++ cancel_all done rt.tasks; tasks = [] })

  unfoldable pub stop_mqtt : Result (Unit {0}) → Exec (Runtime F) (Unit {0})
  stop_mqtt r rt =
      if rt.has_mqtt
      then (close r >> λ s. (ok tt, record s { has_mqtt = false })) rt
      else (ok tt, rt)

  unfoldable pub stop_databus : Result (Unit {0}) → Exec (Runtime F) (Unit {0})
  stop_databus r rt = elim rt.databus [
    | none ↦ (ok tt, rt)
    | some is_open ↦ (close r >> λ s. (ok tt, record s { databus = none })) rt
  ]

  unfoldable pub stop_navsat : Result (Unit {0}) → Exec (Runtime F) (Unit {0})
  stop_navsat r rt =
      if rt.has_navsat_client
      then (close r >> λ s. (ok tt, record s { has_navsat_client = false })) rt
      else (ok tt, rt)

  unfoldable pub stop_runtime : (done : Task → Bool) → Closings → Exec (Runtime F) (Unit {0})
  stop_runtime done c = do
    clear_tasks done
    stop_mqtt c.mqtt
    stop_databus c.databus
    stop_navsat c.navsat

-- A message of the ASGI server to the handler, by its type, and a reply.
pub data ServerMessage : Type 0 where
  startup shutdown other : ServerMessage

pub data ServerReply : Type 0 where
  startup_complete shutdown_complete : ServerReply

-- The replies that a list of messages is due, up to the first shutdown.
unfoldable pub due : List ServerMessage → List ServerReply
due [] = []
due (startup ∷ ms) = startup_complete ∷ due ms
due (shutdown ∷ ms) = shutdown_complete ∷ []
due (other ∷ ms) = due ms

unfoldable pub has_shutdown : List ServerMessage → Bool
has_shutdown [] = false
has_shutdown (startup ∷ ms) = has_shutdown ms
has_shutdown (shutdown ∷ ms) = true
has_shutdown (other ∷ ms) = has_shutdown ms

module _ {F : Type 0} where
  -- `_LifespanHandler.__call__`, on the messages that arrive: its replies, and the runtime.
  unfoldable pub lifespan :
      (start stop : Exec (Runtime F) (Unit {0}))
      → List ServerMessage
      → Runtime F
      → List ServerReply × Runtime F
  lifespan start stop [] rt = ([], rt)
  lifespan start stop (startup ∷ ms) rt =
      let (replies, rt') = lifespan start stop ms (try_except start (pure tt) rt).1 in
      (startup_complete ∷ replies, rt')
  lifespan start stop (shutdown ∷ ms) rt =
      (shutdown_complete ∷ [], (try_except stop (pure tt) rt).1)
  lifespan start stop (other ∷ ms) rt = lifespan start stop ms rt

  -- The runtime once the startups before the first shutdown have been handled.
  abbrev pub at_shutdown : Exec (Runtime F) (Unit {0}) → List ServerMessage → Runtime F → Runtime F
  at_shutdown start [] rt = rt
  at_shutdown start (startup ∷ ms) rt = at_shutdown start ms (try_except start (pure tt) rt).1
  at_shutdown start (shutdown ∷ ms) rt = rt
  at_shutdown start (other ∷ ms) rt = at_shutdown start ms rt

  -- From `rt` on, each task of its list has been awaited, and before that cancelled unless it was
  -- done, in the order of the list, and the list and the clients are gone.
  pub record IsStopped (done : Task → Bool) (rt rt' : Runtime F) : Type 0 where
    pub ended : rt'.awaited ≡ rt.awaited ++ map (λ t. (t, not (done t))) rt.tasks
    pub tasks : rt'.tasks ≡ []
    pub mqtt : rt'.has_mqtt ≡ false
    pub databus : rt'.databus ≡ none
    pub navsat : rt'.has_navsat_client ≡ false

  stop_mqtt-lem :
      (r : Result (Unit {0})) (rt : Runtime F)
      → stop_mqtt r rt ≡ (ok tt, record rt { has_mqtt = false })
  unfolding stop_mqtt close
  stop_mqtt-lem r rt = ground arith

  stop_databus-lem :
      (r : Result (Unit {0})) (rt : Runtime F)
      → stop_databus r rt ≡ (ok tt, record rt { databus = none })
  unfolding stop_databus close
  stop_databus-lem r rt = ground arith

  stop_navsat-lem :
      (r : Result (Unit {0})) (rt : Runtime F)
      → stop_navsat r rt ≡ (ok tt, record rt { has_navsat_client = false })
  unfolding stop_navsat close
  stop_navsat-lem r rt = ground arith

  -- A stop returns, whatever the closings come to.
  stop_runtime-lem :
      (done : Task → Bool) (c : Closings) (rt : Runtime F)
      → stop_runtime done c rt ≡ (
        ok tt,
        record rt {
          awaited = rt.awaited ++ cancel_all done rt.tasks;
          tasks = [];
          has_mqtt = false;
          databus = none;
          has_navsat_client = false;
        },
      )
  unfolding stop_runtime clear_tasks
  stop_runtime-lem done c rt =
      let rt' : Runtime F = record rt {
        awaited = rt.awaited ++ cancel_all done rt.tasks;
        tasks = [];
      } in
      let a = stop_mqtt-lem c.mqtt rt' in
      let b = stop_databus-lem c.databus (record rt' { has_mqtt = false }) in
      let n = stop_navsat-lem c.navsat (record rt' { has_mqtt = false; databus = none }) in
      rw (a, b, n)

  caught-stop :
      (done : Task → Bool) (c : Closings) (rt : Runtime F)
      → IsStopped done rt (try_except (stop_runtime done c) (pure tt) rt).1
  caught-stop done c rt =
      let e = ap (λ x. (try_except (λ s. x) (pure tt) rt).1) (stop_runtime-lem done c rt) in
      record {
        ended = ap (λ x. x.awaited) e ∙ ap (λ l. rt.awaited ++ l) (cancel_all-map done rt.tasks);
        tasks = ap (λ x. x.tasks) e;
        mqtt = ap (λ x. x.has_mqtt) e;
        databus = ap (λ x. x.databus) e;
        navsat = ap (λ x. x.has_navsat_client) e;
      }

  -- For messages with a shutdown among them, whatever a start does or raises, and whatever the
  -- closings of the clients come to: each startup before the first shutdown and this shutdown get
  -- their replies, in order; and of the tasks that the runtime lists when the shutdown comes, each
  -- that is not done has been cancelled and all have been awaited, and the runtime lists no task
  -- and holds no client. Tasks of an earlier startup that a later one has dropped from the list
  -- are not among them.
  pub lifespan-stops :
      (start : Exec (Runtime F) (Unit {0})) (done : Task → Bool) (c : Closings)
      (ms : List ServerMessage) (rt : Runtime F)
      → has_shutdown ms ≡ true
      → ((lifespan start (stop_runtime done c) ms rt).0 ≡ due ms)
        × IsStopped done (at_shutdown start ms rt) (lifespan start (stop_runtime done c) ms rt).1
  unfolding lifespan due has_shutdown
  lifespan-stops start done c [] rt h = cc
  lifespan-stops start done c (startup ∷ ms) rt h =
      let (replies, stopped) = lifespan-stops start done c ms (try_except start (pure tt) rt).1 h in
      (ap (λ rs. startup_complete ∷ rs) replies, stopped)
  lifespan-stops start done c (shutdown ∷ ms) rt h = (refl, caught-stop done c rt)
  lifespan-stops start done c (other ∷ ms) rt h = lifespan-stops start done c ms rt h
