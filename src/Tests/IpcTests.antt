-- ===== src/Tests/IpcTests.antt =====
-- The messages of the RT-kernel (src/kernel/mrtmsg.c): process 2 sends to process 9, which waits.
use minix4rt.Base.{◌==◌, if◌then◌else◌, true, some}
use minix4rt.Kernel.{Kernel}
use minix4rt.Ipc.{IpcArgs}
use minix4rt.Ipc.Send.{rtk_rqst, rtk_arqst, rtk_uprqst, rtk_sign, rtk_rqrcv}
use minix4rt.Ipc.Quiet.{Quiet, send_calls-Quiet}
use minix4rt.Ipc.Direct.{Direct}
use minix4rt.Tests.SemTests.{system, no_queue}

abbrev args : IpcArgs
args = record { pid = 1; msg = 40; msg2 = 44; hdr = 48; timeout = 0; priority = 3 }

abbrev receiver : Kernel
receiver = record system {
  proc = λ i.
      if i == 9
      then record (system.proc 9) {
        pmq = some 1;
        mbx_rcv = true;
        pfrom = some 9;
        pmsg = 70;
        pmhdr = 80;
      }
      else system.proc i;
  messages = record system.messages { msgq = λ _. record no_queue { size = 4 } };
}

send_calls_example :
    Quiet receiver (rtk_rqst 1 args 9 receiver)
    × Quiet receiver (rtk_arqst 1 args 9 receiver)
    × Quiet receiver (rtk_uprqst 1 args 9 receiver)
    × Quiet receiver (rtk_sign args 9 receiver)
    × Quiet receiver (rtk_rqrcv 1 args 9 receiver)
send_calls_example = send_calls-Quiet 1 args 9 receiver
