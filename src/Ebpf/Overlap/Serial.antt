-- ===== src/Ebpf/Overlap/Serial.antt =====
-- Calls that overlap, against the same calls one after the other (aya-test-ebpf/src/main.rs).
use aya_e_bpf.Prelude.{ℕ, ◌≡◌, refl, sym, ap, ◌∙◌, List, [], ◌∷◌, ◌++◌, append_assoc, Option}
use aya_e_bpf.Common.Event.{LatencyEvent}
use aya_e_bpf.Ebpf.Access.{Pc, access}
use aya_e_bpf.Ebpf.Isolation.{enter_switches}
use aya_e_bpf.Ebpf.Kernel.{Kernel, Call, State}
use aya_e_bpf.Ebpf.Overlap.{begin, System, advance, turn}
use aya_e_bpf.Ebpf.Overlap.Effect.{effect, contexts, applied, enter-contexts, access-contexts}
use aya_e_bpf.Ebpf.Overlap.Answers.{made, answer, answered, access-answers}
use aya_e_bpf.Ebpf.Overlap.Knows.{under_way, Serves}
use aya_e_bpf.Ebpf.Overlap.Reports.{access-target_pid}
use aya_e_bpf.Ebpf.Overlap.Sound.{Sound, advance-Sound, begin-Sound}
use aya_e_bpf.Ebpf.Step.{Program, enter, run}

module _ (k : Kernel) where
  -- The events of calls, one after the other.
  unfoldable pub answers : List (Program × Call) → State k → List LatencyEvent
  answers [] s = []
  answers ((p, c) ∷ calls) s =
      answer k p c s.target_pid s.req_ctx ++ answers calls (enter k p c s).0

  abbrev pub next_of : System k → ℕ → Pc
  next_of y i = (access k (y.pcs i) y.maps).1

  -- Calls that overlap: those that took effect, in this order, and the events that they made. A call
  -- begins only when no other one of its process is under way.
  pub data Overlapped
      : System k → List (Program × Call) → List LatencyEvent → System k → Type 0 where
    stop : {y : System k} → Overlapped y [] [] y
    begins :
        {y z : System k} {calls : List (Program × Call)} {events : List LatencyEvent} (i : ℕ)
        (p : Program) (c : Call)
        → ((j : ℕ) → ¬ Serves (under_way (y.pcs j)) c.tgid)
        → Overlapped (turn k y (begin i p c)) calls events z
        → Overlapped y calls events z
    goes :
        {y z : System k} {calls : List (Program × Call)} {events : List LatencyEvent} (i : ℕ)
        → Overlapped (advance k y i) calls events z
        → Overlapped y
            (effect (under_way (y.pcs i)) (under_way (next_of y i)) ++ calls)
            (made (next_of y i) ++ events)
            z

  applied-append :
      (calls more : List (Program × Call)) (target : Option ℕ) (m : k.requests.Map)
      → applied k (calls ++ more) target m ≡ applied k more target (applied k calls target m)
  applied-append [] more target m = refl
  applied-append ((p, c) ∷ calls) more target m =
      applied-append calls more target (contexts k p c target m)

  answered-append :
      (calls more : List (Program × Call)) (target : Option ℕ) (m : k.requests.Map)
      → answered k (calls ++ more) target m
        ≡ answered k calls target m ++ answered k more target (applied k calls target m)
  answered-append [] more target m = refl
  answered-append ((p, c) ∷ calls) more target m =
      ap (λ events. answer k p c target m ++ events)
        (answered-append calls more target (contexts k p c target m))
      ∙ sym (
          append_assoc (answer k p c target m) (answered k calls target (contexts k p c target m))
            (answered k more target (applied k calls target (contexts k p c target m))))

  -- One after the other, the calls do this.
  run-applied :
      (calls : List (Program × Call)) (s : State k)
      → (run k calls s).req_ctx ≡ applied k calls s.target_pid s.req_ctx
  unfolding run
  run-applied [] s = refl
  run-applied ((p, c) ∷ calls) s =
      run-applied calls (enter k p c s).0
      ∙ (λ i. applied k calls ((enter_switches k p c s).0 i) (enter-contexts k p c s i))

  answers-answered :
      (calls : List (Program × Call)) (s : State k)
      → answers calls s ≡ answered k calls s.target_pid s.req_ctx
  unfolding answers
  answers-answered [] s = refl
  answers-answered ((p, c) ∷ calls) s =
      ap (λ events. answer k p c s.target_pid s.req_ctx ++ events)
        (answers-answered calls (enter k p c s).0
          ∙ (λ i. answered k calls ((enter_switches k p c s).0 i) (enter-contexts k p c s i)))

  overlap_applied :
      (y z : System k) (calls : List (Program × Call)) (events : List LatencyEvent)
      → Overlapped y calls events z
      → Sound k y
      → (z.maps.req_ctx ≡ applied k calls y.maps.target_pid y.maps.req_ctx)
        × (events ≡ answered k calls y.maps.target_pid y.maps.req_ctx)
  unfolding turn advance
  overlap_applied y _ _ _ stop sound = (refl, refl)
  overlap_applied y z calls events (begins i p c free rest) sound =
      overlap_applied (turn k y (begin i p c)) z calls events rest
        (begin-Sound k y i p c sound free)
  overlap_applied y z _ _ (goes {calls = calls} {events = events} i rest) sound =
      let (map_same, events_same) =
        overlap_applied (advance k y i) z calls events rest (advance-Sound k y i sound) in
      let first = effect (under_way (y.pcs i)) (under_way (next_of y i)) in
      let target = access-target_pid k (y.pcs i) y.maps in
      let map = access-contexts k (y.pcs i) y.maps (sound.knows i) in
      (
        map_same
            ∙ (λ j. applied k calls (target j) (map j))
            ∙ sym (applied-append first calls y.maps.target_pid y.maps.req_ctx),
        (λ j. access-answers k (y.pcs i) y.maps (sound.knows i) j ++ events_same j)
            ∙ ap (λ events. answered k first y.maps.target_pid y.maps.req_ctx ++ events)
                (λ j. answered k calls (target j) (map j))
            ∙ sym (answered-append first calls y.maps.target_pid y.maps.req_ctx),
      )

  -- Calls that overlap, of which no two are of one process, leave the map of contexts as the same calls do
  -- one after the other, in the order in which they took effect, and make the same events.
  pub overlap_serial :
      (y z : System k) (calls : List (Program × Call)) (events : List LatencyEvent)
      → Overlapped y calls events z
      → Sound k y
      → (z.maps.req_ctx ≡ (run k calls y.maps).req_ctx) × (events ≡ answers calls y.maps)
  overlap_serial y z calls events path sound =
      let (map, made_events) = overlap_applied y z calls events path sound in
      (map ∙ sym (run-applied calls y.maps), made_events ∙ sym (answers-answered calls y.maps))
