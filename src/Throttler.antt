-- ===== src/Throttler.antt =====
-- worker/throttler.go and the event types of protocol/protocol.go: a buffer of one event between the
-- stream and its consumer. The payload of an event is a parameter. The calls of flushFn are kept as
-- a list, the last one first. The timer may fire late, also after Stop. Flush and the timer's flush
-- release the lock before they call flushFn: `Shared` keeps the two parts apart.
pub mod Delivery
mod Tests
use agentfactory_gateway.Common.{
  ℕ, zero, suc, String, Bool, true, false, Option, none, some, List, [], ◌∷◌, if◌then◌else◌,
}

pub data SlackEventType : Type 0 where
  start progress done error tool_call paused : SlackEventType
  other : String → SlackEventType

pub record SlackEvent (P : Type 0) : Type 0 where
  pub type : SlackEventType
  pub payload : Option P

unfoldable pub is_immediate : SlackEventType → Bool
is_immediate start = true
is_immediate done = true
is_immediate error = true
is_immediate tool_call = true
is_immediate progress = false
is_immediate paused = false
is_immediate (other _) = false

-- `timer` says whether a timer is set.
pub record MessageThrottler (P : Type 0) : Type 0 where
  pub buffer : Option (SlackEvent P)
  pub timer : Bool
  pub stopped : Bool
  pub flushed : List (SlackEvent P)

module _ {P : Type 0} where
  unfoldable pub new_message_throttler : MessageThrottler P
  new_message_throttler = record { buffer = none; timer = false; stopped = false; flushed = [] }

  -- if buf != nil { t.flushFn(buf) }
  unfoldable pub flush_event : Option (SlackEvent P) → List (SlackEvent P) → List (SlackEvent P)
  flush_event none log = log
  flush_event (some e) log = e ∷ log

  unfoldable pub push : SlackEvent P → MessageThrottler P → MessageThrottler P
  unfolding is_immediate
  push event t =
      if is_immediate event.type
      then record t { flushed = event ∷ t.flushed }
      else if t.stopped
      then t
      else record t { buffer = some event; timer = true }

  unfoldable pub stop : MessageThrottler P → MessageThrottler P
  unfolding flush_event
  stop t = record t {
    buffer = none;
    timer = false;
    stopped = true;
    flushed = flush_event t.buffer t.flushed;
  }

  -- The part of Flush and of the timer's flush under the lock: the event is taken out of the buffer.
  unfoldable pub take_buffer : MessageThrottler P → MessageThrottler P × Option (SlackEvent P)
  take_buffer t = (record t { buffer = none; timer = false }, t.buffer)

  -- The part after Unlock: the event that was taken is given to flushFn.
  unfoldable pub deliver : Option (SlackEvent P) → MessageThrottler P → MessageThrottler P
  unfolding flush_event
  deliver buf t = record t { flushed = flush_event buf t.flushed }

  -- Flush, where nothing comes between its two parts
  unfoldable pub flush_now : MessageThrottler P → MessageThrottler P
  unfolding take_buffer deliver
  flush_now t = let (t', buf) = take_buffer t in deliver buf t'

  -- the timer's flush, where nothing comes between its two parts
  unfoldable pub fire : MessageThrottler P → MessageThrottler P
  unfolding take_buffer deliver
  fire t = let (t', buf) = take_buffer t in deliver buf t'

-- The throttler with the goroutines that have taken an event and have not yet called flushFn with it.
pub record Shared (P : Type 0) : Type 0 where
  pub throttler : MessageThrottler P
  pub taken : List (SlackEvent P)

-- What happens to a throttler that several goroutines use: Push, Stop, the locked part of Flush or of
-- the timer's flush, and the call of flushFn by one of the goroutines that have taken an event. Stop
-- calls flushFn under the lock.
pub data Action (P : Type 0) : Type 0 where
  pushes : SlackEvent P → Action P
  stops takes : Action P
  delivers : ℕ → Action P

abbrev pub with_taken :
    {P : Type 0} → Option (SlackEvent P) → List (SlackEvent P) → List (SlackEvent P)
with_taken none es = es
with_taken (some e) es = e ∷ es

-- the event at a place, and the others
abbrev pub nth : {P : Type 0} → ℕ → List (SlackEvent P) → Option (SlackEvent P)
nth n [] = none
nth zero (e ∷ es) = some e
nth (suc n) (e ∷ es) = nth n es

abbrev pub without_nth : {P : Type 0} → ℕ → List (SlackEvent P) → List (SlackEvent P)
without_nth n [] = []
without_nth zero (e ∷ es) = es
without_nth (suc n) (e ∷ es) = e ∷ without_nth n es

unfoldable pub step : {P : Type 0} → Action P → Shared P → Shared P
unfolding take_buffer deliver
step (pushes e) s = record s { throttler = push e s.throttler }
step stops s = record s { throttler = stop s.throttler }
step takes s =
    let (t, buf) = take_buffer s.throttler in
    record { throttler = t; taken = with_taken buf s.taken }
step (delivers n) s = record {
  throttler = deliver (nth n s.taken) s.throttler;
  taken = without_nth n s.taken;
}

unfoldable pub run : {P : Type 0} → List (Action P) → Shared P → Shared P
unfolding step
run [] s = s
run (a ∷ as') s = run as' (step a s)
