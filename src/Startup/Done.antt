-- ===== src/Startup/Done.antt =====
-- What a start that goes through has done (aya-test/src/main.rs, bootstrap.rs and probes.rs).
use aya_e_bpf.Prelude.{
  ◌≡◌, refl, sym, ap, ◌∙◌, ◌++◌, append_assoc, append-nil, arith, true, List, [], ◌∷◌, Bool-cases,
  inl, inr,
}
use aya_e_bpf.Common.Event.{StackEvent}
use aya_e_bpf.Config.{Config}
use aya_e_bpf.Startup.{
  latency_ringbuf, Effect, load_ebpf, open_map, spawn_ringbuf_reader, spawn_reporter, wait_ctrl_c,
  World, ok, failed, bad_pid_file, bad_config, Action, ◌>>=◌, ◌>>◌, perform, attempt,
}
use aya_e_bpf.Startup.Bootstrap.{spawn_log_drain, pin_target_pid}
use aya_e_bpf.Startup.Bootstrap
use aya_e_bpf.Startup.Main.{redirect, start_readers, start_sampler, draw_samples, start}
use aya_e_bpf.Startup.Probes.{attach_probes}
use aya_e_bpf.Startup.Stages.{probe_calls, attempts}
use aya_e_bpf.Startup.Started.{is_ok}

-- The effects stand in the list, one right behind the other.
pub record IsSegment (es effects : List Effect) : Type 0 where
  pub before : List Effect
  pub after : List Effect
  pub split : effects ≡ before ++ (es ++ after)

-- An action that ends without an error has done these effects.
unfoldable pub Ensures : {A : Type 0} → List Effect → Action A → Type 0
Ensures es m = is_ok m.0 ≡ true → IsSegment es m.1

left-IsSegment : (es xs ys : List Effect) → IsSegment es xs → IsSegment es (xs ++ ys)
left-IsSegment es xs ys h = record {
  before = h.before;
  after = h.after ++ ys;
  split =
      ap (λ l. l ++ ys) h.split
      ∙ append_assoc h.before (es ++ h.after) ys
      ∙ ap (λ l. h.before ++ l) (append_assoc es h.after ys);
}

right-IsSegment : (es xs ys : List Effect) → IsSegment es ys → IsSegment es (xs ++ ys)
right-IsSegment es xs ys h = record {
  before = xs ++ h.before;
  after = h.after;
  split = ap (λ l. xs ++ l) h.split ∙ sym (append_assoc xs h.before (es ++ h.after));
}

pub first-Ensures :
    {A B : Type 0} (es : List Effect) (m : Action A) (f : A → Action B)
    → Ensures es m
    → Ensures es (m >>= f)
unfolding Ensures is_ok
first-Ensures es (ok a, done) f h all_well = left-IsSegment es done (f a).1 (h refl)
first-Ensures es (failed e, done) f h all_well = absurd (ground (arith, all_well))
first-Ensures es (bad_pid_file, done) f h all_well = absurd (ground (arith, all_well))
first-Ensures es (bad_config, done) f h all_well = absurd (ground (arith, all_well))

pub then-Ensures :
    {A B : Type 0} (es : List Effect) (m : Action A) (f : A → Action B)
    → ((a : A) → Ensures es (f a))
    → Ensures es (m >>= f)
unfolding Ensures is_ok
then-Ensures es (ok a, done) f h all_well = right-IsSegment es done (f a).1 (h a all_well)
then-Ensures es (failed e, done) f h all_well = absurd (ground (arith, all_well))
then-Ensures es (bad_pid_file, done) f h all_well = absurd (ground (arith, all_well))
then-Ensures es (bad_config, done) f h all_well = absurd (ground (arith, all_well))

module _ (w : World) where
  attempt-done : (e : Effect) → is_ok (attempt w e).0 ≡ true → (attempt w e).1 ≡ e ∷ []
  unfolding attempt is_ok
  attempt-done e = elim (Bool-cases (w.succeeds e)) [
    | inl t ↦ rw t (λ all_well. refl)
    | inr t ↦ rw t (λ all_well. absurd (ground (arith, all_well)))
  ]

  then_done :
      (e : Effect) (es : List Effect) (k : Action (Unit {0}))
      → (is_ok k.0 ≡ true → k.1 ≡ es)
      → is_ok (attempt w e >> k).0 ≡ true
      → (attempt w e >> k).1 ≡ e ∷ es
  unfolding attempt is_ok
  then_done e es k h = elim (Bool-cases (w.succeeds e)) [
    | inl t ↦ rw t (λ all_well. ap (◌∷◌ e) (h all_well))
    | inr t ↦ rw t (λ all_well. absurd (ground (arith, all_well)))
  ]

  attempts-done : (es : List Effect) → is_ok (attempts w es).0 ≡ true → (attempts w es).1 ≡ es
  attempts-done [] all_well = refl
  attempts-done (e ∷ []) all_well = attempt-done e all_well
  attempts-done (e ∷ f ∷ es) all_well =
      then_done e (f ∷ es) (attempts w (f ∷ es)) (attempts-done (f ∷ es)) all_well

  attempts-Ensures : (es : List Effect) → Ensures es (attempts w es)
  unfolding Ensures
  attempts-Ensures es all_well = record {
    before = [];
    after = [];
    split = attempts-done es all_well ∙ sym (append-nil es);
  }

abbrev pub reader_calls : Config → List Effect
reader_calls cfg =
    open_map latency_ringbuf ∷ spawn_ringbuf_reader ∷ spawn_reporter cfg.interval_secs ∷ []

module _ (w : World) (later : List StackEvent) (cfg : Config) where
  start_readers-Ensures : Ensures (reader_calls cfg) (start_readers w later cfg)
  unfolding Ensures start_readers
  start_readers-Ensures all_well = record {
    before = [];
    after = [];
    split =
        then_done w (open_map latency_ringbuf)
          (spawn_ringbuf_reader ∷ spawn_reporter cfg.interval_secs ∷ [])
          (attempt w spawn_ringbuf_reader >> perform (spawn_reporter cfg.interval_secs))
          (then_done w spawn_ringbuf_reader (spawn_reporter cfg.interval_secs ∷ [])
            (perform (spawn_reporter cfg.interval_secs)) (λ t. refl))
          all_well;
  }

  attach_probes-Ensures : Ensures probe_calls (attach_probes w)
  unfolding attach_probes
  attach_probes-Ensures = attempts-Ensures w probe_calls

  -- What follows the filter on the target process.
  abbrev tail : Action (Unit {0})
  tail = do
    attach_probes w
    start_readers w later cfg
    samples ← start_sampler w later cfg
    attempt w wait_ctrl_c
    draw_samples w later cfg samples

  from_tail : (es : List Effect) → Ensures es tail → Ensures es (start w later cfg)
  unfolding start
  from_tail es h = then-Ensures es (redirect w later cfg.output_file) _ (λ _.
      then-Ensures es (Bootstrap.raise_memlock w) _ (λ _.
        then-Ensures es (attempt w load_ebpf) _ (λ _.
          then-Ensures es (spawn_log_drain w) _
            (λ _. then-Ensures es (pin_target_pid w cfg.pid_file) _ (λ _. h)))))

  -- A start that ends without an error has attached the three probes, in one go and from the receive to the
  -- send, has then opened the buffer and started the reader and the reporter, and has waited for Ctrl-C.
  pub start_done :
      is_ok (start w later cfg).0 ≡ true
      → IsSegment probe_calls (start w later cfg).1
        × IsSegment (reader_calls cfg) (start w later cfg).1
        × IsSegment (wait_ctrl_c ∷ []) (start w later cfg).1
  unfolding Ensures
  start_done all_well = (
    from_tail probe_calls (first-Ensures probe_calls (attach_probes w) _ attach_probes-Ensures)
        all_well,
    from_tail (reader_calls cfg)
        (then-Ensures (reader_calls cfg) (attach_probes w) _ (λ _.
          first-Ensures (reader_calls cfg) (start_readers w later cfg) _ start_readers-Ensures))
        all_well,
    from_tail (wait_ctrl_c ∷ [])
        (then-Ensures (wait_ctrl_c ∷ []) (attach_probes w) _ (λ _.
          then-Ensures (wait_ctrl_c ∷ []) (start_readers w later cfg) _ (λ _.
            then-Ensures (wait_ctrl_c ∷ []) (start_sampler w later cfg) _ (λ samples.
              first-Ensures (wait_ctrl_c ∷ []) (attempt w wait_ctrl_c) _
                (attempts-Ensures w (wait_ctrl_c ∷ []))))))
        all_well,
  )
