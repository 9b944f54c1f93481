-- ===== src/Lifespan/Runs.antt =====
-- What the server sees of a lifespan whose application has ended.
use nonecorn.Prelude.{◌≡◌, arith, true, false, [], Option, get_or}
use nonecorn.Bytes.{Text, codes}
use nonecorn.Exec.{Error, ok, raise, closed_resource, lifespan_failure}
use nonecorn.Asgi.{AppMessage, Receive}
use nonecorn.Lifespan.{
  Backend, Lifespan, Ending, is_failure, asgi_send, handle_ending, ask, put, end_startup,
  end_shutdown,
}

-- Once the application has ended, however it did, neither the wait for its startup nor that for its
-- shutdown ends in a timeout.
pub end-handle_ending :
    (backend : Backend) (ending : Ending) (l : Lifespan)
    → let l' = (handle_ending backend ending l).1 in
      (end_startup l' ≡ (ok tt, l')) × (end_shutdown backend l' ≡ (ok tt, l'))
unfolding handle_ending end_startup end_shutdown
end-handle_ending backend ending l = ground arith

-- An application that reports a failed startup or a failed shutdown, and ends by the exception that
-- this raises, makes the server stop with that exception, with the application's message in it.
pub handle_ending-asgi_send :
    (backend : Backend) (message : Option Text) (l : Lifespan) (e : Error)
    → (asgi_send backend (AppMessage.startup_failed message) l).0 ≡ raise e
    → ((handle_ending backend
          (Ending.raised e)
          (asgi_send backend (AppMessage.startup_failed message) l).1).0
        ≡ raise e)
      × (e ≡ lifespan_failure (codes "startup") (get_or message []))
unfolding handle_ending asgi_send
handle_ending-asgi_send backend message l e h = ground arith

-- An application that ends by any other exception is run without lifespan support: nothing is raised,
-- and nothing more is put on its queue.
pub ask-handle_ending :
    (backend : Backend) (error : Error) (message : Receive) (l : Lifespan)
    → is_failure error ≡ false
    → let (result, l') = handle_ending backend (Ending.raised error) l in
      (result ≡ ok tt) × (ask message l' ≡ (ok tt, l'))
unfolding handle_ending ask
ask-handle_ending backend error message l h = ground arith

-- When an application returns without an exception, as one that ignores its lifespan does, what the
-- server asks of it next is put on a queue that nobody reads over asyncio, and raises a
-- ClosedResourceError over trio.
pub ask-returned :
    (backend : Backend) (message : Receive) (l : Lifespan)
    → l.supported ≡ true
    → l.channels_open ≡ true
    → (ask message (handle_ending backend Ending.returned l).1).0
      ≡ elim backend [ Backend.asyncio ↦ ok tt | Backend.trio ↦ raise closed_resource ]
unfolding handle_ending ask put
ask-returned backend message l s o = ground arith
