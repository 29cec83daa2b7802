-- ===== src/Watch/Tests.antt =====
-- The theorems about the watcher at a concrete log.
use vigil_apex_f.Common.{◌≡◌, some, arith}
use vigil_apex_f.AuditChain.Demo.{demo, log, log-IsChain, length-log}
use vigil_apex_f.Watch.{Pass, chain_pass}
use vigil_apex_f.Watch.Stuck.{IsStuck, chain_pass-IsStuck}

chain_pass-IsStuck_example : (pass : Pass) × (chain_pass demo 10 2 log ≡ some pass) × IsStuck 2 pass
chain_pass-IsStuck_example =
    chain_pass-IsStuck demo log 10 2 log-IsChain (omega arith) (omega arith)
      (omega (arith, length-log))
