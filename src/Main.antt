-- ===== src/Main.antt =====
-- src/main.rs: the program around the server. What its calls return is given; what is modelled is in which
-- order it goes on, and when it tells the server to shut down.
use redlike.Prelude.{Bool, true, false}
use redlike.Prelude.Result.{Result, ok, err}
use redlike.Archive.{IoError}
use redlike.Server.{ServerError}

-- `Box<dyn std::error::Error>`, by where it comes from.
pub data MainError : Type 0 where
  subscriber_error : MainError
  server_error : ServerError → MainError
  signal_error : IoError → MainError
  join_error : MainError

-- What `select!` sees of the signals on Unix: no handler for SIGTERM, or which of its two branches is ready; that of
-- `ctrl_c` is ready with an error too.
pub data Signals : Type 0 where
  no_handler : IoError → Signals
  ctrl_c : Result (Unit {0}) IoError → Signals
  sigterm : Signals

unfoldable pub wait_for_shutdown_signal : Signals → Result (Unit {0}) IoError
wait_for_shutdown_signal (no_handler e) = err e
wait_for_shutdown_signal (ctrl_c _) = ok tt
wait_for_shutdown_signal sigterm = ok tt

-- `handle.await.map_err(std::io::Error::other)??`, for a task that may have panicked.
unfoldable pub join :
    Result (Result (Unit {0}) ServerError) (Unit {0}) → Result (Unit {0}) MainError
join (err tt) = err join_error
join (ok (err e)) = err (server_error e)
join (ok (ok tt)) = ok tt

-- Behind `run_server`: whether the token is cancelled, and what `main` returns.
unfoldable pub until_shutdown :
    Result (Unit {0}) IoError
    → Result (Result (Unit {0}) ServerError) (Unit {0})
    → Bool × Result (Unit {0}) MainError
unfolding join
until_shutdown (err e) handle = (false, err (signal_error e))
until_shutdown (ok tt) handle = (true, join handle)

unfoldable pub main :
    Result (Unit {0}) (Unit {0})
    → Result (Unit {0}) ServerError
    → Signals
    → Result (Result (Unit {0}) ServerError) (Unit {0})
    → Bool × Result (Unit {0}) MainError
unfolding until_shutdown wait_for_shutdown_signal
main (err _) started signals handle = (false, err subscriber_error)
main (ok _) (err e) signals handle = (false, err (server_error e))
main (ok _) (ok _) signals handle = until_shutdown (wait_for_shutdown_signal signals) handle
