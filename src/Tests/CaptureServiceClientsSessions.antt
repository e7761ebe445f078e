-- ===== src/Tests/CaptureServiceClientsSessions.antt =====
-- Runs of the theorems of CaptureService/Clients/Sessions.antt.
use ps3eye_direct_show.CaptureService.Clients.Sessions.{Transfers, Serves-Reach}
use ps3eye_direct_show.Common.{ℕ}
use ps3eye_direct_show.CaptureService.Clients.{rest, Host, session, turned, turns}
use ps3eye_direct_show.Tests.ServiceFixtures.{loop_answers, busy_host, busy_host-Serves}

Serves-Reach_example :
    let n : ℕ = 1 in
    let s : Host = (turned loop_answers (session busy_host) busy_host) in Transfers n (session s)
Serves-Reach_example =
    Serves-Reach {n = 1} {s = turned loop_answers (session busy_host) busy_host}
      (turns loop_answers rest busy_host-Serves)
