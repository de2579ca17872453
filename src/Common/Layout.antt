-- ===== src/Common/Layout.antt =====
-- The memory image of a `LatencyEvent` (aya-test-common/src/lib.rs): `#[repr(C)]` on a little-endian
-- machine. The probe writes the image and the collector reads it.
use aya_e_bpf.Prelude.{
  ℕ, zero, suc, ◌+◌, ◌*◌, ◌/◌, ◌%◌, ◌^◌, ◌<◌, ◌≡◌, sym, ap, ◌∙◌, [], ◌∷◌, ◌++◌, take, drop, length,
  length-append, take-length, arith,
}
use aya_e_bpf.Prelude.Bytes.{Bytes}
use aya_e_bpf.Common.Event.{LatencyEvent}

-- `n` bytes of a number, lowest first.
unfoldable pub le_bytes : ℕ → ℕ → Bytes
le_bytes zero x = []
le_bytes (suc n) x = (x % 256) ∷ le_bytes n (x / 256)

unfoldable pub of_le : Bytes → ℕ
of_le [] = 0
of_le (b ∷ s) = b + 256 * of_le s

-- The `n` bytes at an offset.
abbrev pub field : Bytes → ℕ → ℕ → Bytes
field image offset n = take n (drop offset image)

-- `size_of::<LatencyEvent>()`: 60 bytes of fields, padded to the alignment of `u64`.
abbrev pub latency_size : ℕ
latency_size = 64

-- The image of an event; `padding` is its last four bytes.
unfoldable pub encode_latency : LatencyEvent → Bytes → Bytes
encode_latency e padding =
    le_bytes 4 e.pid
    ++ (le_bytes 4 e.tid
        ++ (le_bytes 8 e.latency_ns
            ++ (le_bytes 4 e.bytes
                ++ (le_bytes 4 e.client_ip
                    ++ (le_bytes 2 e.client_port
                        ++ (le_bytes 1 e.command
                            ++ (le_bytes 1 e.is_error ++ (e.req_data ++ padding))))))))

-- `read_unaligned` of an event.
unfoldable pub decode_latency : Bytes → LatencyEvent
decode_latency image = record {
  pid = of_le (field image 0 4);
  tid = of_le (field image 4 4);
  latency_ns = of_le (field image 8 8);
  bytes = of_le (field image 16 4);
  client_ip = of_le (field image 20 4);
  client_port = of_le (field image 24 2);
  command = of_le (field image 26 1);
  is_error = of_le (field image 27 1);
  req_data = field image 28 32;
}

-- Every number fits its field, and there are 32 request bytes.
pub record IsImage (e : LatencyEvent) : Type 0 where
  pub pid_fits : e.pid < 2 ^ 32
  pub tid_fits : e.tid < 2 ^ 32
  pub latency_fits : e.latency_ns < 2 ^ 64
  pub bytes_fit : e.bytes < 2 ^ 32
  pub ip_fits : e.client_ip < 2 ^ 32
  pub port_fits : e.client_port < 2 ^ 16
  pub command_fits : e.command < 2 ^ 8
  pub error_fits : e.is_error < 2 ^ 8
  pub request_bytes : length e.req_data ≡ 32

pub word4 : (x : ℕ) → x < 2 ^ 32 → of_le (le_bytes 4 x) ≡ x
unfolding of_le le_bytes
word4 x h = omega arith

pub word8 : (x : ℕ) → x < 2 ^ 64 → of_le (le_bytes 8 x) ≡ x
unfolding of_le le_bytes
word8 x h = omega arith

word2 : (x : ℕ) → x < 2 ^ 16 → of_le (le_bytes 2 x) ≡ x
unfolding of_le le_bytes
word2 x h = omega arith

word1 : (x : ℕ) → x < 2 ^ 8 → of_le (le_bytes 1 x) ≡ x
unfolding of_le le_bytes
word1 x h = omega arith

whole_request : (s t : Bytes) → length s ≡ 32 → take 32 (s ++ t) ≡ s
whole_request s t h = ap (λ n. take n (s ++ t)) (sym h) ∙ take-length s t

-- The collector reads back the event that the probe wrote, if its numbers fit their fields and it
-- has 32 request bytes.
pub decode-encode_latency :
    (e : LatencyEvent) (padding : Bytes) → IsImage e → decode_latency (encode_latency e padding) ≡ e
unfolding decode_latency encode_latency le_bytes
decode-encode_latency e padding h = λ i. record {
  pid = word4 e.pid h.pid_fits i;
  tid = word4 e.tid h.tid_fits i;
  latency_ns = word8 e.latency_ns h.latency_fits i;
  bytes = word4 e.bytes h.bytes_fit i;
  client_ip = word4 e.client_ip h.ip_fits i;
  client_port = word2 e.client_port h.port_fits i;
  command = word1 e.command h.command_fits i;
  is_error = word1 e.is_error h.error_fits i;
  req_data = whole_request e.req_data padding h.request_bytes i;
}

-- The image of an event with 32 request bytes and four bytes of padding has the size of the type.
pub length-encode_latency :
    (e : LatencyEvent) (padding : Bytes)
    → length e.req_data ≡ 32
    → length padding ≡ 4
    → length (encode_latency e padding) ≡ latency_size
unfolding encode_latency le_bytes
length-encode_latency e padding h pad = omega (arith, length-append e.req_data padding)
