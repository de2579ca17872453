-- ===== src/Tests/Classes.antt =====
-- The classification of requests (aya-test/src/resp.rs, aya-test-common/src/lib.rs) on short requests.
use aya_e_bpf.Prelude.{◌↔◌, ◌≡◌, ◌≢◌, ◌≤◌, refl, true, List, [], ◌∷◌, length, all, arith}
use aya_e_bpf.Prelude.Bytes.{Bytes, codes, same, is_digit, is_alphabetic, is_upper, to_upper}
use aya_e_bpf.Prelude.Decimal.{display, from_radix}
use aya_e_bpf.Common.Command.{RedisCommand, unknown, name, detect}
use aya_e_bpf.Common.Command.Detect.{Occurs, detect_iff}
use aya_e_bpf.Resp.{
  borrowed, as_ref, find_arm, try_static, digit_run, byte_at, command_name, read_command, round_at,
  scan_from, scan_resp_command, classify_command,
}
use aya_e_bpf.Resp.Misread.{classify-request_by_key}
use aya_e_bpf.Resp.Request.{request, captured}
use aya_e_bpf.Resp.RoundTrip.{classify-request}
use aya_e_bpf.Resp.Sound.{IsName, scan_resp_command_sound}
use aya_e_bpf.Tests.Instances.{decoder}

abbrev zadd : Bytes
zadd = codes "zadd"

-- The member of a sorted set, which starts with a dollar sign.
abbrev args : List Bytes
args = codes "z" ∷ codes "1" ∷ codes "$9" ∷ []

classify-request_example :
    as_ref (classify_command decoder (captured (request zadd args) [])) ≡ codes "ZADD"
unfolding is_alphabetic to_upper display
classify-request_example = classify-request decoder zadd args [] refl (ground arith) (ground arith)

abbrev payload : Bytes
payload = codes "*1\r\n$4\r\nPING"

scan_resp_command_sound_example :
    IsName payload (codes "PING") × (all is_upper (codes "PING") ≡ true)
unfolding scan_resp_command scan_from round_at digit_run byte_at read_command command_name
    try_static find_arm same is_digit is_alphabetic from_radix
scan_resp_command_sound_example = scan_resp_command_sound payload (borrowed (codes "PING")) refl

-- `JSON.GET` of a key that is a word.
classify-request_by_key_example :
    as_ref
      (classify_command decoder (captured (request (codes "JSON.GET") (codes "users" ∷ [])) []))
    ≡ codes "USERS"
unfolding is_alphabetic to_upper display
classify-request_by_key_example =
    classify-request_by_key decoder (codes "JSON.GET") (codes "users") [] [] (ground arith) refl
      refl (ground arith) (ground arith) (ground arith)

detect_iff_example : (detect (codes "*2\r\nHGET") ≢ unknown) ↔ (
    (rest : Bytes) × (cmd : RedisCommand) × (codes "*2\r\nHGET" ≡ b'*' ∷ rest)
    × (2 ≤ length rest)
    × (cmd ≢ unknown)
    × Occurs (name cmd) (codes "*2\r\nHGET"))
detect_iff_example = detect_iff (codes "*2\r\nHGET")
