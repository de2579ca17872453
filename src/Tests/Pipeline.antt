-- ===== src/Tests/Pipeline.antt =====
-- The program as a whole on a simple kernel: one request, from the wire to the statistics
-- (aya-test-ebpf/src/main.rs, aya-test/src/reader.rs).
use aya_e_bpf.Prelude.{◌+◌, ◌/◌, ◌≡◌, ◌≤◌, refl, [], ◌∷◌, take, length, replicate, none, arith}
use aya_e_bpf.Prelude.Assoc.{lookup, insert}
use aya_e_bpf.Prelude.Bytes.{codes, is_alphabetic, to_upper}
use aya_e_bpf.Prelude.Decimal.{display}
use aya_e_bpf.Ebpf.Probe.{
  is_target_pid, try_on_recvmsg, try_on_recvmsg_ret, store_request, try_on_sendmsg, report_request,
  push_event, wrapping_sub, read_iov_base, batch_size,
}
use aya_e_bpf.Ebpf.Request.{before_send}
use aya_e_bpf.Ebpf.Served.{Service, calls_of, IsServed, served_wakes}
use aya_e_bpf.Ebpf.Step.{on_tcp_recvmsg, on_tcp_recvmsg_ret, on_tcp_sendmsg, enter, handler, run}
use aya_e_bpf.Ebpf.Wakeup.{forced, records_of}
use aya_e_bpf.Pipeline.{IsCall, events_of, images_of}
use aya_e_bpf.Pipeline.Counted.{Counts, collected, request_counted}
use aya_e_bpf.Pipeline.Images.{Readable, collector_reads_probes}
use aya_e_bpf.Monitor.{read_stat, report_monitor}
use aya_e_bpf.Reporter.{survives, command_panel, turn_of, report_turn}
use aya_e_bpf.Stats.Report.{is_cut, report_commands, command_entries}
use aya_e_bpf.Stats.Sort.{sort_desc}
use aya_e_bpf.Pipeline.Tasks.{
  System, Reach, here, next, probe, collect, report, take_records, turn, Agree, tasks_account,
}
use aya_e_bpf.Reader.{process_batch, reader_round}
use aya_e_bpf.Tests.Instances.{kernel, metrics, decoder, machine}
use aya_e_bpf.Tests.Collector.{empty, padding}
use aya_e_bpf.Tests.Probes.{idle, recv, ret, send, idle-Inv}

abbrev idle-Readable : Readable kernel idle
idle-Readable = record { inv = idle-Inv; of_calls = tt }

recv-IsCall : IsCall recv
recv-IsCall = ground arith

ret-IsCall : IsCall ret
ret-IsCall = ground arith

send-IsCall : IsCall send
send-IsCall = ground arith

request_counted_example :
    Counts metrics
      (codes "PING")
      2000
      7
      (collected metrics decoder kernel padding refl empty (before_send kernel recv ret [] [] idle))
      (collected metrics decoder kernel padding refl empty
        (enter kernel on_tcp_sendmsg send (before_send kernel recv ret [] [] idle)).0)
unfolding run enter handler try_on_recvmsg try_on_recvmsg_ret store_request is_target_pid
    wrapping_sub read_iov_base lookup insert display is_alphabetic to_upper
request_counted_example =
    request_counted metrics decoder kernel padding refl empty recv ret send [] [] idle
      (codes "PING") [] (replicate 18 0) 7 0 refl refl (ground arith) (ground arith) refl
      (ground arith) refl refl refl refl (λ e. cc) refl refl tt tt (ground arith) refl
      (ground arith) refl recv-IsCall ret-IsCall send-IsCall tt tt idle-Readable

collector_reads_probes_example :
    reader_round metrics decoder
      (images_of padding (events_of kernel (run kernel ((on_tcp_recvmsg, recv) ∷ []) idle)))
      empty
    ≡ process_batch metrics decoder
        (events_of kernel (run kernel ((on_tcp_recvmsg, recv) ∷ []) idle))
        empty
collector_reads_probes_example =
    collector_reads_probes kernel metrics decoder ((on_tcp_recvmsg, recv) ∷ []) idle padding empty
      refl (recv-IsCall, tt) idle-Readable

abbrev served : Service
served = record { recv = recv; ret = ret; send = send }

served-IsServed : IsServed kernel idle.target_pid 0 served
unfolding is_target_pid read_iov_base wrapping_sub
served-IsServed = record {
  recv_pid = refl;
  ret_pid = refl;
  send_pid = refl;
  buffer = λ e. cc;
  ret_tgid = refl;
  send_tgid = refl;
  in_time = ground arith;
  recv_cpu = refl;
  ret_cpu = refl;
  send_cpu = refl;
}

served_wakes_example :
    forced (records_of kernel (run kernel (calls_of (served ∷ [])) idle))
    ≡ forced (records_of kernel idle) + (0 + 1) / batch_size
served_wakes_example =
    served_wakes kernel 0 (served ∷ []) idle 0
      (record { accepts = λ m key. refl; fits = λ b. refl }) (served-IsServed, tt) refl
      (ground arith)

abbrev started : System kernel metrics
started = record { probes = idle; taken = 0; shared = empty }

-- The three calls of a request, the reporter shows nothing yet, and the reader takes the record.
abbrev received : System kernel metrics
received = record started { probes = (enter kernel on_tcp_recvmsg recv started.probes).0 }

abbrev returned : System kernel metrics
returned = record started { probes = (enter kernel on_tcp_recvmsg_ret ret received.probes).0 }

abbrev answered : System kernel metrics
answered = record started { probes = (enter kernel on_tcp_sendmsg send returned.probes).0 }

abbrev reported : System kernel metrics
reported = turn metrics decoder kernel machine padding 5 10 none (record { prev = none }) answered

abbrev taken_one : System kernel metrics
taken_one = take_records metrics decoder kernel machine padding 1 reported

one_record : 0 + 1 ≤ length (events_of kernel answered.probes)
unfolding run enter handler try_on_recvmsg try_on_recvmsg_ret try_on_sendmsg report_request
    push_event store_request is_target_pid wrapping_sub read_iov_base lookup insert
one_record = ground arith

run_of_tasks : Reach metrics decoder kernel machine padding started taken_one
unfolding survives report_turn turn_of report_monitor read_stat is_cut command_panel report_commands
    command_entries sort_desc turn enter
run_of_tasks =
    next
      (next
        (next
          (next (next here (probe on_tcp_recvmsg recv recv-IsCall refl))
            (probe on_tcp_recvmsg_ret ret ret-IsCall refl))
          (probe on_tcp_sendmsg send send-IsCall refl))
        (report 5 10 none (record { prev = none }) refl refl))
      (collect 1 one_record refl)

tasks_account_example :
    (1 ≤ length (events_of kernel answered.probes))
    × Agree metrics taken_one.shared
        (process_batch metrics decoder (take 1 (events_of kernel answered.probes)) empty)
unfolding turn take_records
tasks_account_example =
    tasks_account metrics decoder kernel machine padding idle empty taken_one refl idle-Readable
      run_of_tasks
