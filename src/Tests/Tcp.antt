-- ===== src/Tests/Tcp.antt =====
-- The idle timeout over the connection of Http1.
use nonecorn.Prelude.{◌≡◌, true, refl, none, false, Bool}
use nonecorn.Exec.{pass}
use nonecorn.Worker.{init as init_worker}
use nonecorn.Http1.Streams.{Stream}
use nonecorn.Http1.Steady.Calls.{run}
use nonecorn.Tcp.{Served, blank, close, protocol_send, restart_idle, stop_idle, write}
use nonecorn.Tcp.IdleTimer.{serve, serve-attached}
use nonecorn.Tests.Http.{http}
use nonecorn.Tests.Http1.{fresh, http1, site, unanswered}

abbrev served : Served (Unit {0})
served = record { server = blank; rest = tt }

abbrev steady : Served (Unit {0}) → Bool
steady w = false

timer_runs : (serve pass steady (run site unanswered fresh).rest.effects served).server.idles ≡ true
unfolding http1 http protocol_send restart_idle stop_idle write close
timer_runs = refl

serve-attached_example : (run site unanswered fresh).rest.attached ≡ false
serve-attached_example =
    serve-attached pass steady site (init_worker none) Stream.absent unanswered served (λ w. refl)
      timer_runs
