-- ===== src/Schedule.antt =====
-- Parts of the program that take turns: a step answers an event with the next state, or `none` where the event cannot
-- happen.
use go_httpserver.Base.{Option, none, some, List, [], ◌∷◌, ◌≡◌, refl}

module _ {E S : Type 0} (step : E → S → Option S) where
  -- The states after any schedule.
  pub data Reach (s : S) : S → Type 0 where
    here : Reach s s
    next : {t u : S} → Reach s t → (e : E) → step e t ≡ some u → Reach s u

  pub Reach-keeps :
      (I : S → Type 0)
      → ((e : E) (t u : S) → I t → step e t ≡ some u → I u)
      → {s t : S} → I s
      → Reach s t
      → I t
  Reach-keeps I keeps h here = h
  Reach-keeps I keeps h (next {t} {u} reached e is) = keeps e t u (Reach-keeps I keeps h reached) is

  abbrev or_same : Option S → S → S
  or_same (some t) s = t
  or_same none s = s

  -- The state after a schedule, of which the events that cannot happen are skipped.
  unfoldable pub run : List E → S → S
  run [] s = s
  run (e ∷ es) s = run es (or_same (step e s) s)

  step-Reach : {s t : S} (e : E) (o : Option S) → step e t ≡ o → Reach s t → Reach s (or_same o t)
  step-Reach e (some u) is reached = next reached e is
  step-Reach e none is reached = reached

  pub run-Reach : {s : S} (es : List E) (t : S) → Reach s t → Reach s (run es t)
  unfolding run
  run-Reach [] t reached = reached
  run-Reach (e ∷ es) t reached =
      run-Reach es (or_same (step e t) t) (step-Reach e (step e t) refl reached)
