-- ===== src/Examples/Sharing.antt =====
-- Routers, and an application that goes on writing the slice that it passed to Group.
use go_httpserver.Base.{ℕ, ◌≡◌, ◌<◌, refl, arith, some, Option, List, [], ◌∷◌}
use go_httpserver.Effect.{pure}
use go_httpserver.Schedule.{run, run-Reach, here}
use go_httpserver.Slices.{Slice, read, write}
use go_httpserver.Router.{Middleware}
use go_httpserver.Router.Sharing.{
  World, Action, groups, logs_to, sets, makes, router_of, step, initial,
}
use go_httpserver.Router.Sharing.Kept.{Reach-agrees}
use go_httpserver.Examples.Responses.{replace}

abbrev passes : Middleware
passes next = next

abbrev stops : Middleware
stops next = pure tt

-- A new array has room for one element more.
abbrev one_more : ℕ → ℕ
one_more n = 1

abbrev turn : Action passes one_more → World passes one_more → Option (World passes one_more)
turn = step passes one_more

abbrev first_two : Slice
first_two = record { array = 0; from = 0; len = 2; cap = 2 }

-- The application passes a slice of two, writes it, and passes it again: once to the new router, which has room
-- left in its array, and once more after another write.
abbrev busy : List (Action passes one_more)
busy =
    makes
    ∷ sets 0 0 replace
    ∷ sets 0 1 stops
    ∷ groups 0 first_two
    ∷ sets 0 0 stops
    ∷ groups 1 first_two
    ∷ sets 0 1 replace
    ∷ groups 1 first_two
    ∷ logs_to 2 (some 7)
    ∷ []

abbrev ended : World passes one_more
ended = run turn busy (initial passes one_more (λ a i. passes))

-- The first router of Group has the middleware of the first call, and the second both, as they were then.
busy_routers : (router_of ended.heap (ended.values 1)).middlewares ≡ replace ∷ stops ∷ []
unfolding run step read write
busy_routers = refl

busy_second :
    (router_of ended.heap (ended.values 2)).middlewares ≡ replace ∷ stops ∷ stops ∷ stops ∷ []
unfolding run step read write
busy_second = refl

busy_count : 3 < ended.count
unfolding run step
busy_count = omega arith

Reach-agrees_example : router_of ended.heap (ended.values 3) ≡ ended.plain 3
Reach-agrees_example =
    Reach-agrees passes one_more (λ a i. passes)
      (run-Reach turn busy (initial passes one_more (λ a i. passes)) here) 3 busy_count
