-- ===== src/Tests/Lifespan.antt =====
-- Applications whose lifespan ends early.
use nonecorn.Prelude.{◌≡◌}
use nonecorn.Exec.{ok, value_error}
use nonecorn.Lifespan.{Backend, Ending, blank, handle_ending, end_startup, end_shutdown}
use nonecorn.Lifespan.Runs.{end-handle_ending}

end-handle_ending_example :
    let l = (handle_ending Backend.trio (Ending.raised value_error) blank).1 in
    (end_startup l ≡ (ok tt, l)) × (end_shutdown Backend.trio l ≡ (ok tt, l))
end-handle_ending_example = end-handle_ending Backend.trio (Ending.raised value_error) blank
