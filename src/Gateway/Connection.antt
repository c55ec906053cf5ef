-- ===== src/Gateway/Connection.antt =====
-- gateway/slack.go: the health of the connection to Slack, and the metrics of gateway/metrics.go that
-- follow it. The clock does not run backwards.
use agentfactory_gateway.Common.{
  ℕ, suc, ◌+◌, ◌-◌, ◌%◌, ◌<◌, ◌≡◌, Bool, true, false, ◌||◌, not, List, [], ◌∷◌, if◌then◌else◌,
  is_zero, leb, arith,
}
use agentfactory_gateway.Metrics.{Metrics, int64_mod, set_connection_status}

-- What SlackGateway knows of the connection, and the metrics.
pub record Connection : Type 0 where
  pub connected : Bool
  pub last_conn_at : ℕ
  pub metrics : Metrics

unfoldable pub set_connected : ℕ → Bool → Connection → Connection
set_connected now is_up c = record c {
  connected = is_up;
  last_conn_at = if is_up then now else c.last_conn_at;
  metrics = set_connection_status now is_up c.metrics;
}

-- SetConnectionStatus, called on its own
unfoldable pub status_metric : ℕ → Bool → Connection → Connection
status_metric now is_up c = record c { metrics = set_connection_status now is_up c.metrics }

unfoldable pub connection_duration : ℕ → Connection → ℕ
connection_duration now c =
    if not c.connected || is_zero c.last_conn_at then 0 else now - c.last_conn_at

pub data SocketEvent : Type 0 where
  connecting connection_error incoming_error is_connected other : SocketEvent

-- The cases of the switch of Start that concern the connection.
unfoldable pub on_socket_event : ℕ → SocketEvent → Connection → Connection
on_socket_event now connecting c = set_connected now false c
on_socket_event now connection_error c = status_metric now false (set_connected now false c)
on_socket_event now incoming_error c = status_metric now false (set_connected now false c)
on_socket_event now is_connected c = status_metric now true (set_connected now true c)
on_socket_event now other c = c

unfoldable pub on_socket_events : List (ℕ × SocketEvent) → Connection → Connection
on_socket_events [] c = c
on_socket_events ((now, e) ∷ events) c = on_socket_events events (on_socket_event now e c)

pub data Alert : Type 0 where
  down critical : ℕ → Alert

-- One tick of monitorConnectionHealth: the streak and the alerts that are logged.
unfoldable pub monitor_tick : Bool → ℕ → ℕ × List Alert
monitor_tick true streak = (0, [])
monitor_tick false streak =
    let n = suc streak in
    (n, if leb 6 n then down n ∷ critical n ∷ [] else if leb 3 n then down n ∷ [] else [])

-- How often the events count a disconnection.
abbrev pub counted : List (ℕ × SocketEvent) → ℕ
counted [] = 0
counted ((_, connecting) ∷ events) = 1 + counted events
counted ((_, connection_error) ∷ events) = 2 + counted events
counted ((_, incoming_error) ∷ events) = 2 + counted events
counted ((_, is_connected) ∷ events) = counted events
counted ((_, other) ∷ events) = counted events

-- The metric of the status agrees with what the gateway knows.
abbrev pub Agrees : Connection → Type 0
Agrees c = c.metrics.connection_status ≡ (if c.connected then 1 else 0)

-- After any sequence of events of the socket, the status in the metrics agrees with the connection if
-- it did before, and the number of disconnections has grown, modulo 2^64, by one for each attempt to
-- connect and by two for each error, whether or not there was a connection to lose.
pub on_socket_events-Agrees :
    (events : List (ℕ × SocketEvent)) (c : Connection)
    → Agrees c
    → c.metrics.disconnection_count < int64_mod
    → Agrees (on_socket_events events c)
      × ((on_socket_events events c).metrics.disconnection_count
          ≡ (c.metrics.disconnection_count + counted events) % int64_mod)
unfolding on_socket_events on_socket_event set_connected status_metric set_connection_status
on_socket_events-Agrees [] c a h = ground arith
on_socket_events-Agrees ((now, connecting) ∷ events) c a h =
    ground (arith, on_socket_events-Agrees events (on_socket_event now connecting c))
on_socket_events-Agrees ((now, connection_error) ∷ events) c a h =
    ground (arith, on_socket_events-Agrees events (on_socket_event now connection_error c))
on_socket_events-Agrees ((now, incoming_error) ∷ events) c a h =
    ground (arith, on_socket_events-Agrees events (on_socket_event now incoming_error c))
on_socket_events-Agrees ((now, is_connected) ∷ events) c a h =
    ground (arith, on_socket_events-Agrees events (on_socket_event now is_connected c))
on_socket_events-Agrees ((now, other) ∷ events) c a h = on_socket_events-Agrees events c a h
