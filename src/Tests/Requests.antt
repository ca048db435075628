-- ===== src/Tests/Requests.antt =====
-- The correlation of websocket requests.
use threadlens.Prelude.{◌≡◌, ◌≢◌, refl, arith, true, none, some}
use threadlens.Prelude.Dict.{lookup, insert, erase}
use threadlens.Prelude.Codes.{is_empty}
use threadlens.Prelude.Json.{Json, Fields, end, field}
use threadlens.Matter.Requests.{
  RequestManager, new_manager, set, success, register, message_id, response, started,
  dispatch_incoming, cancel_all, wait_for, wait_times_out, done, waiting, cancelled,
}
use threadlens.Matter.Requests.Steps.{
  Step, registers, times_out, Reach, here, next, IsConsistent, with_request, closed,
}
use threadlens.Matter.Requests.Contract.{Closes, Promise, Step-Promise}
use threadlens.Matter.Requests.Settled.{Reach-IsConsistent, cancel_all-settles}
use threadlens.Matter.Requests.Answers.{Holds, Reach-Holds, dispatch-answers, response_before_wait}

abbrev asked : RequestManager
asked = with_request "m1" 100 new_manager

asked_reached : Reach new_manager asked
unfolding register lookup insert erase is_empty
asked_reached = next here (registers "m1" 100 refl)

-- the answer to the request
abbrev answer : Fields
answer = field "message_id" (Json.str "m1") (field "result" (Json.number 5) end)

abbrev answered : RequestManager
answered = closed "m1" 0 (done (success (Json.number 5) 40)) asked

Reach-IsConsistent_example : IsConsistent asked
Reach-IsConsistent_example = Reach-IsConsistent asked_reached

cancel_all-settles_example : (cancel_all (some "gone") 150 asked).futures 0 ≢ waiting
unfolding cancel_all insert
cancel_all-settles_example =
    cancel_all-settles asked (some "gone") 150 asked_reached 0 (omega arith)

dispatch-answers_example :
    dispatch_incoming answer 140 asked
    ≡ (true, closed "m1" 0 (done (success (Json.number 5) 40)) asked)
unfolding message_id response started lookup insert
dispatch-answers_example =
    dispatch-answers asked answer "m1" 0 140 (success (Json.number 5) 40) asked_reached refl refl
      refl

response_before_wait_example :
    (wait_for "m1" 150 (dispatch_incoming answer 140 asked).1 ≡ none)
    × ((dispatch_incoming answer 140 asked).1.futures 0 ≡ done (success (Json.number 5) 40))
unfolding message_id response started lookup insert
response_before_wait_example =
    response_before_wait asked answer "m1" 0 140 150 (success (Json.number 5) 40) asked_reached refl
      refl refl

later_asked : Step answered (with_request "m2" 200 answered)
unfolding register lookup insert erase is_empty
later_asked = registers "m2" 200 refl

Reach-Holds_example : Holds 0 (success (Json.number 5) 40) (with_request "m2" 200 answered)
unfolding set
Reach-Holds_example =
    Reach-Holds 0 (success (Json.number 5) 40) (next here later_asked) (omega arith, refl)

Step-Promise_example : Closes "m1" cancelled asked (wait_times_out "m1" 100 9_000 asked).1
unfolding Promise
Step-Promise_example =
    Step-Promise asked (wait_times_out "m1" 100 9_000 asked).1 asked_reached
      (times_out "m1" 100 9_000 refl)
