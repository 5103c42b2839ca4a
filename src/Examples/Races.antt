-- ===== src/Examples/Races.antt =====
-- A body that is read under the timeout.
use go_httpserver.Base.{ℕ, zero, suc, ◌≡◌, refl, arith, List, [], ◌∷◌, Bool, true}
use go_httpserver.Effect.{Action, Panic, Outcome, returned, failure}
use go_httpserver.Bind.Library.{Result, success, fail}
use go_httpserver.Bind.Body.{bind_reader, charset_reader, bind_json}
use go_httpserver.Schedule.{Reach, run, run-Reach, here}
use go_httpserver.Bind.Timed.{
  Answer, bytes_read, broken, Work, finish, read, write, Machine, exited, replied, result_ready,
  timer_fired, Event, works, reads, selects, expires, disconnects, launched, step,
}
use go_httpserver.Bind.Timed.Traced.{answers}
use go_httpserver.Bind.Timed.Finishes.{IsBlocked, launched_finishes}
use go_httpserver.Bind.Timed.Refines.{reader_of, CarriesOut, Raced, launched-Raced}
use go_httpserver.Examples.Requests.{counting, query_and_json, post}

-- One Read, and then the binder on what it gave.
abbrev json_of : Answer → Action ℕ Result
json_of answer =
    bind_reader counting (bind_json counting query_and_json)
      (charset_reader counting (reader_of (answer ∷ [])) [])

-- The places in the code of the goroutine.
data Place : Type 0 where
  starts : Place
  has_read : Answer → Place
  ends : Outcome Result → Place

abbrev does : Place → Work Place ℕ
does starts = read λ answer. has_read answer
does (has_read answer) = write (λ v. (json_of answer v).1) (λ v. ends (json_of answer v).0)
does (ends o) = finish o

does-CarriesOut : CarriesOut counting post [] (bind_json counting query_and_json) does starts
does-CarriesOut given v r w (zero, ended) = absurd ended
does-CarriesOut [] v r w (suc n, ended) = absurd ended
does-CarriesOut (a ∷ given) v r w (suc zero, ended) = absurd ended
does-CarriesOut (a ∷ given) v r w (suc (suc zero), ended) = absurd ended
does-CarriesOut (a ∷ []) v r w (suc (suc (suc n)), (out, struct)) = cc
does-CarriesOut (a ∷ b ∷ given) v r w (suc (suc (suc n)), ended) = absurd ended

abbrev braces : Answer
braces = bytes_read (b'{' ∷ b'}' ∷ [])

abbrev all_handed : Panic → Bool
all_handed e = true

-- The binder is done just before the timer fires, and the select takes its result.
abbrev in_time : List Event
in_time = reads braces ∷ works ∷ works ∷ works ∷ expires ∷ selects result_ready ∷ []

-- The timer fires during the Read, and the binder goes on after the reply.
abbrev too_late : List Event
too_late = expires ∷ selects timer_fired ∷ reads (broken (failure 1)) ∷ works ∷ works ∷ works ∷ []

in_time_reply :
    (run (step does all_handed) in_time (launched starts 3)).caller ≡ replied (returned success)
unfolding run step charset_reader bind_json
in_time_reply = refl

too_late_reply :
    (run (step does all_handed) too_late (launched starts 3)).caller
    ≡ replied (returned (fail 408 "HttpServer: Bind body timed out"))
unfolding run step charset_reader bind_json
too_late_reply = refl

abbrev in_time_end : Machine Place ℕ
in_time_end = run (step does all_handed) in_time (launched starts 3)

abbrev in_time_reached : Reach (step does all_handed) (launched starts 3) in_time_end
in_time_reached = run-Reach (step does all_handed) in_time (launched starts 3) here

launched-Raced_example :
    Raced counting post []
      (bind_json counting query_and_json)
      (answers in_time_reached)
      3
      (returned success)
      in_time_end
launched-Raced_example =
    launched-Raced counting post [] (bind_json counting query_and_json) does starts does-CarriesOut
      (omega arith) (omega arith) all_handed 3 (returned success) in_time_reached in_time_reply

too_late-IsBlocked :
    IsBlocked does all_handed (λ e. refl) (run (step does all_handed) too_late (launched starts 3))
unfolding run step charset_reader bind_json
too_late-IsBlocked works forced = refl
too_late-IsBlocked (reads answer) forced = refl
too_late-IsBlocked (selects c) forced = refl
too_late-IsBlocked expires forced = refl
too_late-IsBlocked disconnects forced = cc

launched_finishes_example :
    ((run (step does all_handed) too_late (launched starts 3)).worker ≡ exited)
    × (r : Outcome Result) × ((run (step does all_handed) too_late (launched starts 3)).caller
        ≡ replied r)
launched_finishes_example =
    launched_finishes does all_handed (λ e. refl) starts 3
      (run-Reach (step does all_handed) too_late (launched starts 3) here) too_late-IsBlocked
