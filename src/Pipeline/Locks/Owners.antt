-- ===== src/Pipeline/Locks/Owners.antt =====
-- Who holds the locks of the collector (aya-test/src/reader.rs, aya-test/src/reporter.rs).
use mathlib.Core.Path.{subst}
use aya_e_bpf.Prelude.{◌≡◌, Bool, true, false, Option, none, some, arith}
use aya_e_bpf.Pipeline.Locks.{
  Task, reader, reporter, Mutexes, ReaderPc, awaiting, wants_stats, wants_clients, processing,
  has_two, ReporterPc, has_stats, has_commands, has_clients,
}

abbrev pub reader_has_stats : ReaderPc → Bool
reader_has_stats awaiting = false
reader_has_stats (wants_stats batch) = false
reader_has_stats pc = true

abbrev pub reader_has_commands : ReaderPc → Bool
reader_has_commands (wants_clients batch) = true
reader_has_commands (processing batch left) = true
reader_has_commands has_two = true
reader_has_commands pc = false

abbrev pub reader_has_clients : ReaderPc → Bool
reader_has_clients (processing batch left) = true
reader_has_clients pc = false

abbrev pub reporter_has_stats : ReporterPc → Bool
reporter_has_stats has_stats = true
reporter_has_stats pc = false

abbrev pub reporter_has_commands : ReporterPc → Bool
reporter_has_commands has_commands = true
reporter_has_commands pc = false

abbrev pub reporter_has_clients : ReporterPc → Bool
reporter_has_clients has_clients = true
reporter_has_clients pc = false

-- The mutex names the one task that stands between its `lock` and its drop, or no task does.
abbrev pub Owned : Option Task → Bool → Bool → Type 0
Owned none r p = (r ≡ false) × (p ≡ false)
Owned (some reader) r p = (r ≡ true) × (p ≡ false)
Owned (some reporter) r p = (r ≡ false) × (p ≡ true)

-- Each of the three.
abbrev pub Locked : Mutexes → ReaderPc → ReporterPc → Type 0
Locked x r p =
    Owned x.stats (reader_has_stats r) (reporter_has_stats p)
    × Owned x.cmd_stats (reader_has_commands r) (reporter_has_commands p)
    × Owned x.client_stats (reader_has_clients r) (reporter_has_clients p)

-- What holds after a step, if there is one.
abbrev pub After {ℓ} : {A : Type 0} → (A → Type ℓ) → Option A → Type ℓ
After P none = Unit
After P (some v) = P v

pub after_step {ℓ} :
    {A : Type 0} (P : A → Type ℓ) (o : Option A) (v : A) → After P o → o ≡ some v → P v
after_step P o v h e = subst (After P) e h

-- The reader takes a free mutex, and the reporter does.
pub taken_by_reader :
    (x : Option Task) (a b : Bool) → x ≡ none → Owned x a b → Owned (some reader) true b
taken_by_reader x a b e h = ground (arith, subst (λ x. Owned x a b) e h)

pub taken_by_reporter :
    (x : Option Task) (a b : Bool) → x ≡ none → Owned x a b → Owned (some reporter) a true
taken_by_reporter x a b e h = ground (arith, subst (λ x. Owned x a b) e h)

-- A task that holds it drops it.
pub dropped_by_reader : (x : Option Task) (b : Bool) → Owned x true b → Owned none false b
dropped_by_reader none b h = ground (arith, h)
dropped_by_reader (some reader) b h = ground (arith, h)
dropped_by_reader (some reporter) b h = ground (arith, h)

pub dropped_by_reporter : (x : Option Task) (a : Bool) → Owned x a true → Owned none a false
dropped_by_reporter none a h = ground (arith, h)
dropped_by_reporter (some reader) a h = ground (arith, h)
dropped_by_reporter (some reporter) a h = ground (arith, h)
