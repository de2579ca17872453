-- ===== src/Tests/Instances.antt =====
-- Simple functions for the code that the program only calls: a kernel, a histogram, a decoder and a
-- file system.
use aya_e_bpf.Prelude.{
  ℕ, zero, suc, ◌-◌, ◌*◌, ◌^◌, ◌<◌, ◌≤◌, ◌≡◌, refl, ap, true, List, [], ◌∷◌, ◌++◌, none, some,
  Bool-cases, inl, inr, length, replicate, arith, ltb, ◌==◌, if◌then◌else◌,
}
use aya_e_bpf.Prelude.Assoc.{nat_eq, lookup, insert, lookup-insert}
use aya_e_bpf.Prelude.Bytes.{Bytes, codes}
use aya_e_bpf.Prelude.Int.{pos}
use aya_e_bpf.Common.Event.{LatencyEvent, StackEvent}
use aya_e_bpf.Config.{Files, ConfigFile}
use aya_e_bpf.Ebpf.Kernel.{ReqCtx, Table, Ring, Kernel}
use aya_e_bpf.Monitor.{Machine}
use aya_e_bpf.Resp.{Decoder}
use aya_e_bpf.Stats.Metrics.{Metrics}

abbrev pub remove {ℓ} : {V : Type ℓ} → List (ℕ × V) → ℕ → List (ℕ × V)
remove [] key = []
remove ((j, v) ∷ m) key = if j == key then remove m key else (j, v) ∷ remove m key

pub lookup-remove {ℓ} :
    {V : Type ℓ} (m : List (ℕ × V)) (key j : ℕ)
    → lookup j (remove m key) ≡ (if key == j then none else lookup j m)
unfolding lookup
lookup-remove [] key j = ground arith
lookup-remove ((i, v) ∷ m) key j = ground (arith, lookup-remove m key j)

-- A map without a limit.
abbrev pub assoc_table : (V : Type 0) → Table V
assoc_table V = record {
  Map = List (ℕ × V);
  get = λ m key. lookup key m;
  insert = λ m key v. insert key v m;
  accepts = λ m key. true;
  remove = remove;
  write = λ m key v. insert key v m;
  get-insert = λ m key j v yes_fits. lookup-insert key j v m;
  get-insert_refused = λ m key j v refused. absurd (ground arith);
  get-remove = lookup-remove;
  get-write = λ m key j v old found. lookup-insert key j v m;
}

-- A buffer without a limit.
abbrev pub list_ring : (A : Type 0) → Ring A
list_ring A = record {
  Buffer = List (A × ℕ);
  records = λ b. b;
  output = λ b a flags. b ++ (a, flags) ∷ [];
  fits = λ b. true;
  records-output = λ b a flags room. refl;
  records-output_full = λ b a flags full. absurd (ground arith);
}

-- Copies what is there, and keeps the length.
abbrev pub copy_over : Bytes → Bytes → Bytes
copy_over fresh [] = []
copy_over [] (o ∷ old) = o ∷ old
copy_over (d ∷ fresh) (o ∷ old) = d ∷ copy_over fresh old

pub length-copy_over : (fresh old : Bytes) → length (copy_over fresh old) ≡ length old
length-copy_over fresh [] = refl
length-copy_over [] (o ∷ old) = refl
length-copy_over (d ∷ fresh) (o ∷ old) = ap suc (length-copy_over fresh old)

-- The words that the memory holds: a buffer's address, and 127.0.0.1 in network order.
abbrev pub word_of : ℕ → ℕ → ℕ
word_of n old = if n == 8 then 4096 else if n == 4 then 16777343 else old

pub word_of-lt : (n old : ℕ) → old < 2 ^ (8 * n) → word_of n old < 2 ^ (8 * n)
word_of-lt n old small = elim (Bool-cases (n == 8)) [
  | inl eight ↦ ground arith
  | inr not_eight ↦ elim (Bool-cases (n == 4)) [
    | inl four ↦ ground arith
    | inr not_four ↦ rw (not_eight, not_four) small
  ]
]

abbrev pub kernel : Kernel
kernel = record {
  requests = assoc_table ReqCtx;
  latencies = list_ring LatencyEvent;
  stacks = list_ring StackEvent;
  read_kernel = λ c n addr old. (word_of n old, pos 0);
  read_user = λ c addr old. copy_over (codes "*1\r\n$4\r\nPING\r\n") old;
  get_stack = λ c user old. (old, pos 16);
  read_kernel_width = λ c n addr old small. word_of-lt n old small;
  read_user_length = λ c addr old. length-copy_over (codes "*1\r\n$4\r\nPING\r\n") old;
}

pub pad_to : (w : ℕ) → w ≤ length {A = ℕ} (replicate w 32)
pad_to zero = ground arith
pad_to (suc w) = ground (arith, pad_to w)

-- Whole numbers for floats, and the list of values for a histogram.
abbrev pub metrics : Metrics
metrics = record {
  Float = ℕ;
  lit = λ n d. n;
  of_u64 = λ n. n;
  div = λ a b. a;
  mul = λ a b. a * b;
  lt = ltb;
  fmt = λ w p x. replicate w 32;
  fmt_padded = λ w p x. pad_to w;
  Histogram = List ℕ;
  new_with_bounds = λ lo hi digits. [];
  record_value = λ h v. h ++ v ∷ [];
  mean = length;
  value_at_quantile = λ h q. q;
  min_value = length;
  max_value = length;
}

-- A decoder that decodes nothing.
abbrev pub decoder : Decoder
decoder = record {
  Value = ℕ;
  decode = λ s. none;
  as_array = λ v. none;
  as_bulk = λ v. none;
  to_uppercase = λ s. s;
}

abbrev pub config_file : ConfigFile
config_file = record {
  redis = none;
  sampling = some (record { frequency_hz = some 49 });
  report = none;
  flamegraph = none;
  output = none;
}

-- One file, which can be read and parsed.
abbrev pub files : Files
files = record {
  read_to_string = λ path. some (codes "[sampling]");
  from_toml = λ content. some config_file;
}

-- A file that is not TOML, and no file.
abbrev pub bad_files : Files
bad_files = record { read_to_string = λ path. some (codes "["); from_toml = λ content. none }

abbrev pub no_files : Files
no_files = record { read_to_string = λ path. none; from_toml = λ content. none }

-- A clock that counts seconds, 100 ticks each, and pages of 4096 bytes.
abbrev pub machine : Machine metrics
machine = record {
  Instant = ℕ;
  seconds_between = λ from to. to - from;
  clk_tck = 100;
  page_sz = pos 4096;
}
