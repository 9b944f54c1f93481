-- ===== src/Platform.antt =====
-- What the code asks the interpreter and the operating system, as parameters, and can_sendfile of
-- src/hypercorn/utils.py.
use nonecorn.Prelude.{◌||◌, ◌&&◌, ℕ, not, List, Bool}
use nonecorn.Bytes.{Bytes, Text}

-- `asyncio` and `os` as `can_sendfile` sees them, for the loop that runs
pub record EventLoop : Type 0 where
  pub version_at_least_3_7 : Bool
  pub has_proactor : Bool
  pub is_proactor : Bool
  pub is_selector : Bool
  pub has_os_sendfile : Bool

unfoldable pub can_sendfile : EventLoop → Bool → Bool
can_sendfile loop https =
    loop.version_at_least_3_7
    && ((loop.has_proactor && loop.is_proactor) || (loop.is_selector && loop.has_os_sendfile))
    && not https

-- `unquote` is urllib's. Of the file system: `os.path.exists`, the descriptor that `os.open`
-- returns, and the non-empty chunks that reading the file yields.
pub record Platform : Type 0 where
  pub loop : EventLoop
  pub unquote : Text → Text
  pub path_exists : Text → Bool
  pub open_fd : Text → ℕ
  pub read_chunks : Text → List Bytes
