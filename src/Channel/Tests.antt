-- ===== src/Channel/Tests.antt =====
-- Instances of the theorems on channels at concrete runs.
use kyte.Prelude.{◌<◌, ◌≡◌, refl, true, false, some, [], ◌∷◌, ◌++◌, pos, get_elem?}
use kyte.Channel.{channel_create, can_send, push, pop, chan_new, chan_send, chan_recv}
use kyte.Channel.Blocking.{
  sending, send_waiting, sent, receiving, recv_waiting, System, one, send_done, recv_wait, Reaches,
  here, then_step, start, IsFifo, channel-IsFifo,
}
use kyte.Channel.LostWakeup.{Steps, IsStuck, threads, channel-IsStuck}
use kyte.Channel.Async.{
  Async, sends, receives, retries, ends, IsServed, send, receive, schedule, end,
}
use kyte.Channel.Async.Served.{chan-IsServed}
use kyte.Channel.Async

-- A receiver waits, and a sender wakes it.
abbrev woken : System
woken = record {
  chan = record { q = pos 7 ∷ []; capacity = 2 };
  threads = receiving ∷ sent ∷ [];
  pushed = pos 7 ∷ [];
  popped = [];
}

Reaches-woken : Reaches (start (pos 2) (receiving ∷ sending (pos 7) ∷ [])) woken
unfolding channel_create can_send push pop
Reaches-woken =
    then_step (then_step here (recv_wait 0 refl refl))
      (send_done 1 (pos 7) (receiving ∷ sent ∷ []) refl refl (one 0 recv_waiting refl refl))

channel-IsFifo_example :
    IsFifo (channel_create (pos 2)).capacity woken × (0 < (channel_create (pos 2)).capacity)
channel-IsFifo_example =
    channel-IsFifo (pos 2) (receiving ∷ sending (pos 7) ∷ []) woken Reaches-woken

channel-IsStuck_example :
    (s : System) × Steps (start (pos 1) (threads (pos 1) (pos 2))) s
    × IsStuck s
    × (s.chan.q ≡ [])
    × (get_elem? s.threads 3 ≡ some (send_waiting (pos 2)))
    × (get_elem? s.threads 1 ≡ some recv_waiting)
channel-IsStuck_example = channel-IsStuck (pos 1) (pos 2)

-- Coroutine 5 waits, a value is sent, it tries again, and ends.
abbrev sent_to : Async
sent_to = send (receive (Async.start (pos 0)) 5) (pos 7)

abbrev served : Async
served = receive (record sent_to { woken = [] }) 5

woken-five : sent_to.woken ≡ [] ++ (5 ∷ [])
unfolding send receive schedule chan_new chan_send chan_recv
woken-five = refl

five_goes_on : sent_to.done 5 ≡ false
unfolding send receive schedule chan_new chan_send chan_recv
five_goes_on = refl

Reaches-served : Async.Reaches (Async.start (pos 0)) served
Reaches-served =
    Async.then_step (Async.then_step (Async.then_step Async.here (receives 5)) (sends (pos 7)))
      (retries [] [] 5 woken-five five_goes_on)

abbrev ended : Async
ended = end served 5

-- It has got the value, and all was called in turn.
served-popped : served.popped ≡ pos 7 ∷ []
unfolding send receive schedule chan_new chan_send chan_recv
served-popped = refl

ended-in_turn : ended.in_turn ≡ true
unfolding send receive schedule end chan_new chan_send chan_recv
ended-in_turn = refl

chan-IsServed_example : IsServed ended
chan-IsServed_example = chan-IsServed (pos 0) ended (Async.then_step Reaches-served (ends 5))
