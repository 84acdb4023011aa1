-- ===== src/Https/Handoff/Tests.antt =====
-- The theorems on the two threads at a concrete run.
use marsrelay.Common.{◌≡◌, refl, true, some, [], codes}
use marsrelay.Marstack.{Request}
use marsrelay.Marstack.Tests.{json, marstack, clock}
use marsrelay.Https.Handoff.{
  Shared, blocked, Opened, setup, enter_loop, try_listener, start_listener, accept, post, unfilled,
  initial, Reach, first, later, setting_up, entering, opens, accepts, posts,
}
use marsrelay.Https.Handoff.Safety.{Safe, Reach-Safe}
use marsrelay.Https.Handoff.Progress.{Exchanged, Reach-Exchanged, AnsweredIn, blocked-AnsweredIn}

abbrev request : Request
request = record {
  method = codes "GET";
  url = codes "/app/neng/getDateInfoeu.php";
  body = [];
  source_ip = codes "192.168.4.2";
  body_complete = true;
}

abbrev sockets : Opened
sockets = record { socket = some 3; bound = true; listens = true }

-- The threads are started, a request is read and handed over.
abbrev opened_up : Shared
opened_up = try_listener sockets (enter_loop true (setup true true (initial marstack)))

abbrev handed_over : Shared
handed_over = post 0 request (accept (some request) opened_up)

handed_over-Reach : Reach json handed_over
unfolding setup enter_loop try_listener start_listener accept post
handed_over-Reach =
    later
      (later
        (later
          (later (later (first marstack) (setting_up true true refl)) (entering true refl refl))
          (opens sockets refl))
        (accepts (some request) refl))
      (posts 0 request refl refl)

waits : handed_over.task ≡ blocked 0 request unfilled
unfolding post
waits = refl

Reach-Safe_example : Safe handed_over
Reach-Safe_example = Reach-Safe json handed_over handed_over-Reach

Reach-Exchanged_example : Exchanged json handed_over
Reach-Exchanged_example = Reach-Exchanged json handed_over handed_over-Reach

blocked-AnsweredIn_example : AnsweredIn json 80002 clock request handed_over.answers 5 handed_over
blocked-AnsweredIn_example =
    blocked-AnsweredIn json 80002 clock handed_over 0 request unfilled handed_over-Reach waits
