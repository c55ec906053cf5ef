-- ===== src/Startup/Tests.antt =====
-- The start-up of main.go at a concrete input.
use agentfactory_gateway.Common.{All, false, refl, String, ◌≡◌, true, ◌↔◌, none, some, [], ◌∷◌}
use agentfactory_gateway.Common.Text.{◌<>◌}
use agentfactory_gateway.Config.Env.{IsGiven}
use agentfactory_gateway.Startup.{
  Machine, main, starts, main-starts, signals, socket_ends, looks, start_goes_on, main_goes_on,
  expires, happen_all, just_started, finished, drain, stop_gateway, close_store,
}
use agentfactory_gateway.Startup.Shutdown.{IsUndrained, In, main-IsUndrained}

abbrev machine : Machine
machine = record {
  env = ("SLACK_BOT_TOKEN", "xoxb-1") ∷ [];
  file = some ("SLACK_APP_TOKEN=xapp-1" ∷ []);
  open_error = none;
  events = signals ∷ looks ∷ main_goes_on true ∷ expires ∷ [];
}

abbrev join_path : String → String → String
join_path a b = a <> "/" <> b

main-starts_example : (starts (main join_path machine) ≡ true) ↔ (
    (IsGiven "SLACK_BOT_TOKEN" machine.file machine.env
      × IsGiven "SLACK_APP_TOKEN" machine.file machine.env)
    × (machine.open_error ≡ none))
main-starts_example = main-starts join_path machine

main-IsUndrained_example :
    All IsUndrained (main join_path machine)
    × ((happen_all machine.events just_started).0.main_state ≡ finished
        → In (drain false) (happen_all machine.events just_started).1)
main-IsUndrained_example = main-IsUndrained join_path machine (tt, (tt, (tt, (tt, tt))))

-- The signal, the second select and the ten seconds.
waited : (happen_all machine.events just_started).1 ≡ drain false ∷ close_store ∷ close_store ∷ []
unfolding happen_all
waited = refl

-- Where the socket ends, Stop is called, and main waits for it.
drained_run :
    (happen_all
      (signals ∷ main_goes_on true ∷ socket_ends ∷ start_goes_on ∷ main_goes_on true ∷ [])
      just_started).1
    ≡ stop_gateway ∷ drain true ∷ close_store ∷ close_store ∷ []
unfolding happen_all
drained_run = refl
