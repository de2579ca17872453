-- ===== src/Monitor.antt =====
-- aya-test/src/monitor.rs: the collector's own load, from `/proc/self/stat`.
pub mod Fields
use aya_e_bpf.Prelude.{
  ℕ, zero, suc, ◌+◌, ◌-◌, ◌*◌, ◌%◌, ◌^◌, List, [], ◌∷◌, drop, length, get_elem?, Option, none, some,
  ltb, ◌==◌, if◌then◌else◌,
}
use aya_e_bpf.Prelude.Bytes.{Bytes}
use aya_e_bpf.Prelude.Decimal.{u64_max, parse, read_digits, from_radix}
use aya_e_bpf.Prelude.Int.{ℤ, pos, negsuc, to_bits}
use aya_e_bpf.Stats.Metrics.{Metrics}
use aya_e_bpf.Symbolizer.Text.{words}

-- `-n`
abbrev pub negative : ℕ → ℤ
negative zero = pos 0
negative (suc n) = negsuc n

-- `str::parse` of an `i64`.
unfoldable pub parse_i64 : Bytes → Option ℤ
parse_i64 [] = none
parse_i64 (c ∷ []) = elim (from_radix 10 (2 ^ 63 - 1) (c ∷ [])) [
  | none ↦ none
  | some n ↦ some (pos n)
]
parse_i64 (c ∷ d ∷ s) =
    if c == b'-'
    then (elim (read_digits 10 (2 ^ 63) (d ∷ s) 0) [ none ↦ none | some n ↦ some (negative n) ])
    else (elim (from_radix 10 (2 ^ 63 - 1) (c ∷ d ∷ s)) [ none ↦ none | some n ↦ some (pos n) ])

-- `str::find` of a character.
unfoldable pub find : ℕ → Bytes → Option ℕ
find c [] = none
find c (d ∷ s) =
    let rest = find c s in
    if d == c then some 0 else (elim rest [ none ↦ none | some i ↦ some (suc i) ])

pub record Stat : Type 0 where
  pub utime : ℕ  -- u64
  pub stime : ℕ  -- u64
  pub threads : ℤ  -- i64
  pub vsize : ℕ  -- u64
  pub rss : ℕ  -- u64

-- A slice that starts behind the end of the text panics.
pub data StatRead : Type 0 where
  stat : Stat → StatRead
  no_stat : StatRead
  panicked : StatRead

-- `f.get(i)?.parse().ok()?`
unfoldable pub unsigned_at : List Bytes → ℕ → Option ℕ
unsigned_at f i = elim (get_elem? f i) [ none ↦ none | some word ↦ parse u64_max word ]

unfoldable pub signed_at : List Bytes → ℕ → Option ℤ
signed_at f i = elim (get_elem? f i) [ none ↦ none | some word ↦ parse_i64 word ]

infixl 5 ◌>>=◌
abbrev pub ◌>>=◌ : {A B : Type 0} → Option A → (A → Option B) → Option B
none >>= f = none
some a >>= f = f a

-- The fields of the words behind the name; the page size as `sysconf` gives it.
unfoldable pub stat_of : ℤ → List Bytes → Option Stat
stat_of page_sz f = do
  utime ← unsigned_at f 11
  stime ← unsigned_at f 12
  threads ← signed_at f 17
  vsize ← unsigned_at f 20
  rss_pg ← signed_at f 21
  some (record {
    utime = utime;
    stime = stime;
    threads = threads;
    vsize = vsize;
    rss = to_bits 64 rss_pg * to_bits 64 page_sz % 2 ^ 64;
  })

-- The content of the file, `none` when it cannot be read.
unfoldable pub read_stat : ℤ → Option Bytes → StatRead
read_stat page_sz none = no_stat
read_stat page_sz (some raw) = elim (find b')' raw) [
  | none ↦ no_stat
  | some after ↦
      if ltb (length raw) (after + 2)
      then panicked
      else (elim (stat_of page_sz (words (drop (after + 2) raw))) [
        | none ↦ no_stat
        | some s ↦ stat s
      ])
]

-- The clock of the machine, and what `sysconf` tells of it. `seconds_between` is the time from the first
-- instant to the second.
pub record Machine (m : Metrics) : Type 1 where
  pub Instant : Type 0
  pub seconds_between : Instant → Instant → m.Float
  pub clk_tck : m.Float
  pub page_sz : ℤ

module _ (m : Metrics) (c : Machine m) where
  open m use {Float, lit, of_u64, div, mul, lt, fmt}

  pub record ProcessMonitor : Type 0 where
    pub prev : Option (c.Instant × ℕ)

  unfoldable pub new_monitor : ProcessMonitor
  new_monitor = record { prev = none }

  pub record MonitorPanel : Type 0 where
    pub cpu : Bytes
    pub rss : Bytes
    pub vsz : Bytes
    pub thr : ℤ

  -- `utime + stime` in `u64`.
  unfoldable pub ticks_of : Stat → ℕ
  ticks_of s = (s.utime + s.stime) % 2 ^ 64

  unfoldable pub cpu_pct : Option (c.Instant × ℕ) → c.Instant → ℕ → Float
  cpu_pct none now ticks = lit 0 0
  cpu_pct (some (prev_inst, prev_ticks)) now ticks =
      let dw : Float = c.seconds_between prev_inst now in
      let dt : Float = of_u64 (ticks - prev_ticks) in
      if lt (lit 0 0) dw then mul (div (div dt c.clk_tck) dw) (lit 100 0) else lit 0 0

  unfoldable pub monitor_panel : Stat → Float → MonitorPanel
  monitor_panel s cpu = record {
    cpu = fmt 11 2 cpu;
    rss = fmt 11 2 (div (of_u64 s.rss) (lit 1_048_576 0));
    vsz = fmt 11 2 (div (of_u64 s.vsize) (lit 1_048_576 0));
    thr = s.threads;
  }

  pub data MonitorReport : Type 0 where
    shown : ProcessMonitor → MonitorPanel → MonitorReport
    nothing_shown : ProcessMonitor → MonitorReport
    report_panicked : MonitorReport

  unfoldable pub report_monitor : c.Instant → Option Bytes → ProcessMonitor → MonitorReport
  report_monitor now raw s = elim (read_stat c.page_sz raw) [
    | no_stat ↦ nothing_shown s
    | panicked ↦ report_panicked
    | stat st ↦
        shown (record { prev = some (now, ticks_of st) })
          (monitor_panel st (cpu_pct s.prev now (ticks_of st)))
  ]
